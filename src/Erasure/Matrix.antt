-- ===== src/Erasure/Matrix.antt =====
-- The matrices of frontend/src/lib/erasure/reedSolomon.ts: buildEncodingMatrix and invertMatrix.
-- A matrix is its rows. invertMatrix changes `a` and `inverse` row by row in the same way, so a
-- row of the one stands here beside the same row of the other.
pub mod Dot
pub mod Rows
pub mod Elimination
pub mod Clearing
pub mod Inverse
pub mod Kernel
pub mod Singular
pub mod Failing
use Prim.Native.Nat.{bit_xor}
use ccn.Prelude.{ℕ, zero, suc, ◌+◌, ◌-◌, Bool, true, false, Option, none, some}
use ccn.Prelude.{List, [], ◌∷◌, ◌++◌, map, length, replicate, drop, eqb, if◌then◌else◌}
use ccn.Erasure.Outcome.{Outcome, ok, fail, ◌>>=◌, from_field, Failure}
use ccn.Erasure.Gf256.{at, store, mul, inv, add}

abbrev pub Row : Type 0
Row = List ℕ

-- A row of the matrix, `[]` past its end.
abbrev pub matrix_row : List Row → ℕ → Row
matrix_row [] i = []
matrix_row (r ∷ rows) zero = r
matrix_row (r ∷ rows) (suc i) = matrix_row rows i

-- `new Array<number>(k).fill(0)` with a 1 at `i`.
unfoldable pub unit_row : ℕ → ℕ → Row
unit_row k i = store (replicate k 0) i 1

-- The loops that push one value for each index.
unfoldable pub tabulate {ℓ} : {A : Type ℓ} → (ℕ → A) → ℕ → ℕ → List A
tabulate f zero i = []
tabulate f (suc n) i = f i ∷ tabulate f n (suc i)

unfoldable pub try_tabulate {ℓ} : {A : Type ℓ} → (ℕ → Outcome A) → ℕ → ℕ → Outcome (List A)
try_tabulate f zero i = ok []
try_tabulate f (suc n) i = do a ← f i; rest ← try_tabulate f n (suc i); ok (a ∷ rest)

unfoldable pub identity_rows : ℕ → List Row
identity_rows k = tabulate (unit_row k) k 0

unfoldable pub cauchy_row : ℕ → ℕ → Outcome Row
cauchy_row k x = try_tabulate (λ j. from_field (inv (bit_xor x j))) k 0

unfoldable pub build_encoding_matrix : ℕ → ℕ → Outcome (List Row)
build_encoding_matrix k m = do
  parity ← try_tabulate (λ i. cauchy_row k (k + i)) m 0
  ok (identity_rows k ++ parity)

-- Row `r` of `a` and of `inverse`.
pub record Both : Type 0 where
  pub left : Row
  pub right : Row

abbrev pub row_at : List Both → ℕ → Both
row_at [] r = record { left = []; right = [] }
row_at (x ∷ rows) zero = x
row_at (x ∷ rows) (suc r) = row_at rows r

-- `for (let r = col + 1; r < n; r++) if (a[r]![col] !== 0) { swap = r; break; }`
unfoldable pub find_nonzero : ℕ → ℕ → List Both → Option ℕ
find_nonzero col r [] = none
find_nonzero col r (x ∷ rows) =
    if eqb (at x.left col) 0 then find_nonzero col (suc r) rows else some r

unfoldable pub swap_rows : List Both → ℕ → ℕ → List Both
swap_rows rows i j = store (store rows i (row_at rows j)) j (row_at rows i)

unfoldable pub bring : ℕ → List Both → Option ℕ → Outcome (List Both)
bring col rows none = fail Failure.singular
bring col rows (some r) = ok (swap_rows rows col r)

-- A row whose entry in the column is not 0 comes to the diagonal.
unfoldable pub choose_pivot : ℕ → List Both → Outcome (List Both)
choose_pivot col rows =
    if eqb (at (row_at rows col).left col) 0
    then bring col rows (find_nonzero col (suc col) (drop (suc col) rows))
    else ok rows

unfoldable pub scale : ℕ → Both → Both
scale p x = record { left = map (λ c. mul c p) x.left; right = map (λ c. mul c p) x.right }

unfoldable pub normalize : ℕ → List Both → Outcome (List Both)
normalize col rows =
    let pivot = at (row_at rows col).left col in
    if eqb pivot 1
    then ok rows
    else (do p ← from_field (inv pivot); ok (store rows col (scale p (row_at rows col))))

unfoldable pub add_scaled : ℕ → Row → Row → Row
add_scaled f [] ps = []
add_scaled f (x ∷ xs) [] = []
add_scaled f (x ∷ xs) (p ∷ ps) = add x (mul f p) ∷ add_scaled f xs ps

unfoldable pub reduce : ℕ → Both → Both → Both
reduce zero pivot x = x
reduce (suc f) pivot x = record {
  left = add_scaled (suc f) x.left pivot.left;
  right = add_scaled (suc f) x.right pivot.right;
}

unfoldable pub eliminate : ℕ → Both → ℕ → List Both → List Both
eliminate col pivot r [] = []
eliminate col pivot r (x ∷ rows) =
    (if eqb r col then x else reduce (at x.left col) pivot x) ∷ eliminate col pivot (suc r) rows

unfoldable pub step_column : ℕ → List Both → Outcome (List Both)
step_column col rows = do
  chosen ← choose_pivot col rows
  scaled ← normalize col chosen
  ok (eliminate col (row_at scaled col) 0 scaled)

-- The loop over the columns, with `n` of them left.
unfoldable pub columns : ℕ → ℕ → List Both → Outcome (List Both)
columns zero col rows = ok rows
columns (suc n) col rows = do next ← step_column col rows; columns n (suc col) next

abbrev pub beside : List Row → List Row → List Both
beside [] ys = []
beside (x ∷ xs) [] = []
beside (x ∷ xs) (y ∷ ys) = record { left = x; right = y } ∷ beside xs ys

unfoldable pub invert_matrix : List Row → Outcome (List Row)
invert_matrix matrix =
    let n = length matrix in
    do rows ← columns n 0 (beside matrix (identity_rows n)); ok (map (λ x. x.right) rows)
