-- ===== src/Erasure/Matrix/Inverse.antt =====
-- invertMatrix: what it returns gives back every column that the matrix was applied to.
use ccn.Prelude.{ℕ, zero, suc, ◌+◌, ◌≤◌, ◌<◌, ◌≡◌, refl, ap, sym, ◌∙◌, arith}
use ccn.Prelude.{List, [], ◌∷◌, map, length, All}
use ccn.Erasure.Gf256.{at}
use ccn.Erasure.Matrix.{
  Row, matrix_row, Both, row_at, unit_row, tabulate, identity_rows, beside, invert_matrix,
}
use ccn.Erasure.Matrix.Dot.{IsBytes, dot, dot-unit_row, length-unit_row, unit_row-IsBytes}
use ccn.Erasure.Matrix.Rows.{Gives, Gives-bind, All-row_at}
use ccn.Erasure.Matrix.Elimination.{IsFull, IsReduced}
use ccn.Erasure.Matrix.Clearing.{columns-IsReduced, reduced-dot}

-- A row of bytes of the width `n`.
abbrev pub IsRow : ℕ → Row → Type 0
IsRow n row = (length row ≡ n) × IsBytes row

-- The rows applied to `ds` give `rs`, from entry `i` on.
abbrev pub Maps : List Row → ℕ → List ℕ → List ℕ → Type 0
Maps matrix i ds rs = (j : ℕ) → j < length matrix → dot (matrix_row matrix j) ds ≡ at rs (i + j)

pub length-beside :
    (xs : List Row) (n i : ℕ) → length (beside xs (tabulate (unit_row n) (length xs) i)) ≡ length xs
unfolding tabulate
length-beside [] n i = refl
length-beside (x ∷ xs) n i = ap suc (length-beside xs n (suc i))

module _ (n : ℕ) (ds rs : List ℕ) (ds_bytes : IsBytes ds) (rs_bytes : IsBytes rs) where
  beside-IsFull :
      (xs : List Row) (i : ℕ)
      → i + length xs ≤ n
      → length rs ≡ n
      → All (IsRow n) xs
      → Maps xs i ds rs
      → All (IsFull n ds rs) (beside xs (tabulate (unit_row n) (length xs) i))
  unfolding tabulate
  beside-IsFull [] i l e h m = tt
  beside-IsFull (x ∷ xs) i l e (p, h) m = (
    record {
      left_width = p.0;
      right_width = length-unit_row n i;
      left_bytes = p.1;
      right_bytes = unit_row-IsBytes n i;
      balanced =
          m 0 (omega arith)
          ∙ ap (at rs) {x = i + 0} {y = i} (omega arith)
          ∙ sym (dot-unit_row n i rs (omega arith) e rs_bytes);
    },
    beside-IsFull xs (suc i) (omega arith) e h
        (λ j q. m (suc j) (omega arith) ∙ ap (at rs) {x = i + suc j} {y = suc i + j} (omega arith)),
  )

  pub start-IsReduced :
      (matrix : List Row)
      → length matrix ≡ n
      → length rs ≡ n
      → All (IsRow n) matrix
      → Maps matrix 0 ds rs
      → IsReduced n ds rs 0 (beside matrix (tabulate (unit_row n) (length matrix) 0))
  start-IsReduced matrix e f h m = record {
    count = length-beside matrix n 0 ∙ e;
    full = beside-IsFull matrix 0 (omega arith) f h m;
    ones = λ c p q. absurd (omega arith);
    zeros = λ r c p q. absurd (omega arith);
  }

-- What an inverse does: its rows, applied to `rs`, give `ds`.
abbrev pub Restores : ℕ → List ℕ → List ℕ → List Row → Type 0
Restores n ds rs inverse =
    (j : ℕ) → j < n → IsRow n (matrix_row inverse j) × (dot (matrix_row inverse j) rs ≡ at ds j)

rights : List Both → List Row
rights rows = map (λ x. x.right) rows

matrix_row-rights : (rows : List Both) (j : ℕ) → matrix_row (rights rows) j ≡ (row_at rows j).right
unfolding rights
matrix_row-rights [] j = refl
matrix_row-rights (x ∷ rows) zero = refl
matrix_row-rights (x ∷ rows) (suc j) = matrix_row-rights rows j

rights-Restores :
    (n : ℕ) (ds rs : List ℕ) (rows : List Both)
    → IsBytes ds
    → IsBytes rs
    → length ds ≡ n
    → IsReduced n ds rs n rows
    → Restores n ds rs (rights rows)
rights-Restores n ds rs rows b c e i j h =
    let full = All-row_at (IsFull n ds rs) rows j i.full (omega (arith, i.count)) in
    rw (matrix_row-rights rows j)
      ((full.right_width, full.right_bytes), reduced-dot n ds rs b c rows j e i h)

-- invertMatrix of a square matrix of bytes finds it singular, or returns a matrix that takes back
-- what the matrix makes of any column: if the matrix takes `ds` to `rs`, its result takes `rs` to
-- `ds`.
pub invert_matrix-Restores :
    (matrix : List Row) (ds rs : List ℕ)
    → All (IsRow (length matrix)) matrix
    → IsBytes ds
    → IsBytes rs
    → length ds ≡ length matrix
    → length rs ≡ length matrix
    → Maps matrix 0 ds rs
    → Gives (Restores (length matrix) ds rs) (invert_matrix matrix)
unfolding invert_matrix identity_rows rights
invert_matrix-Restores matrix ds rs h b c e f m =
    let n : ℕ = length matrix in
    Gives-bind (IsReduced n ds rs n) (Restores n ds rs) _ _
      (columns-IsReduced n ds rs b c n 0 _ (omega arith)
        (start-IsReduced n ds rs b c matrix refl f h m))
      (λ rows i. rights-Restores n ds rs rows b c e i)
