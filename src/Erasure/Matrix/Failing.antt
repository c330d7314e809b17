-- ===== src/Erasure/Matrix/Failing.antt =====
-- How invertMatrix can fail, step by step.
use ccn.Prelude.{ℕ, zero, suc, ◌+◌, ◌-◌, ◌<◌, ◌≡◌, ◌≢◌, refl, ap, sym, subst, ◌∙◌, arith, inl, inr}
use ccn.Prelude.{List, [], ◌∷◌, length, drop, length-drop, All}
use ccn.Prelude.{Option, none, some, eqb, eqb_iff, if_cases}
use ccn.Erasure.Outcome.{ok, ◌>>=◌, from_field}
use ccn.Erasure.Gf256.{at, store, mul, inv}
use ccn.Erasure.Gf256.Laws.{mul-zero, inv-mul}
use ccn.Erasure.Matrix.{
  Row, matrix_row, Both, row_at, unit_row, tabulate, identity_rows, find_nonzero, bring,
  choose_pivot, scale, normalize, step_column, columns, beside, invert_matrix,
}
use ccn.Erasure.Matrix.Dot.{IsBytes, dot, at-IsByte}
use ccn.Erasure.Matrix.Rows.{All-row_at, row_at-drop, find_nonzero-found}
use ccn.Erasure.Matrix.Inverse.{IsRow}
use ccn.Erasure.Matrix.Elimination.{
  IsFull, IsChosen, IsNormal, equal_cases, bring-IsChosen, scaled-IsNormal,
}
use ccn.Erasure.Matrix.Clearing.{eliminate-IsReduced}
use ccn.Erasure.Matrix.Kernel.{
  Traces, Traces-bind, Traces-mono, IsKernel, swap-IsKernel, scale-IsKernel, eliminate-IsKernel,
}
use ccn.Erasure.Matrix.Dot.{length-unit_row, unit_row-IsBytes}
use ccn.Erasure.Matrix.Inverse.{length-beside}
use ccn.Erasure.Matrix.Singular.{HasKernel, Start, stuck-HasKernel, find_nonzero-none}

-- What the second rows take to 0, the first do.
abbrev Back : List Both → List Both → Type 0
Back rows next = (ds : List ℕ) → IsBytes ds → IsKernel ds next → IsKernel ds rows

HasKernel-Back :
    (n : ℕ) (rows next : List Both) → Back rows next → HasKernel n next → HasKernel n rows
HasKernel-Back n rows next b h = record {
  dead = h.dead;
  bytes = h.bytes;
  width = h.width;
  place = h.place;
  inside = h.inside;
  one = h.one;
  kernel = b h.dead h.bytes h.kernel;
}

module _ (n : ℕ) where
  abbrev Chosen : ℕ → List Both → Type 0
  Chosen col rows = IsChosen n [] [] tt tt col rows

  abbrev Normal : ℕ → List Both → Type 0
  Normal col rows = IsNormal n [] [] tt tt col rows

  bring-Traces :
      (col : ℕ) (rows : List Both) (o : Option ℕ)
      → col < n
      → Start n col rows
      → at (row_at rows col).left col ≡ 0
      → find_nonzero col (suc col) (drop (suc col) rows) ≡ o
      → Traces
          (HasKernel n rows)
          (λ chosen. Chosen col chosen × Back rows chosen)
          (bring col rows o)
  unfolding bring
  bring-Traces col rows none h i z e = stuck-HasKernel n col rows h i λ r p q.
      elim (equal_cases col r) [
        | inl f ↦ subst (λ (t : ℕ). at (row_at rows t).left col ≡ 0) f z
        | inr f ↦
            let at_drop = row_at-drop (suc col) (r - suc col) rows in
            let place : suc col + (r - suc col) ≡ r = omega arith in
            subst (λ (x : Both). at x.left col ≡ 0) (at_drop ∙ ap (row_at rows) place)
              (find_nonzero-none col (suc col) (drop (suc col) rows) e (r - suc col)
                (omega (arith, length-drop (suc col) rows, i.count)))
      ]
  bring-Traces col rows (some s) h i z e =
      let (j, p, q, _) = find_nonzero-found col (suc col) (drop (suc col) rows) s e in
      (
        bring-IsChosen n [] [] tt tt col rows (some s) h i e,
        λ ds b k.
            swap-IsKernel ds rows col s (omega (arith, i.count))
              (omega (arith, length-drop (suc col) rows)) (λ w. omega arith) k,
      )

  choose_pivot-Traces :
      (col : ℕ) (rows : List Both)
      → col < n
      → Start n col rows
      → Traces
          (HasKernel n rows)
          (λ chosen. Chosen col chosen × Back rows chosen)
          (choose_pivot col rows)
  unfolding choose_pivot
  choose_pivot-Traces col rows h i =
      if_cases (Traces (HasKernel n rows) (λ chosen. Chosen col chosen × Back rows chosen))
        (eqb (at (row_at rows col).left col) 0) _ _
        (λ e. bring-Traces col rows _ h i ((eqb_iff _ 0).0 e) refl)
        (λ e. ((i, λ z. ground (arith, eqb_iff (at (row_at rows col).left col) 0)), λ ds b k. k))

  normalized_at :
      (col x : ℕ) (rows : List Both) (K : Type 0)
      → col < n
      → Start n col rows
      → at (row_at rows col).left col ≡ x
      → x ≢ 0
      → Traces K
          (λ scaled. Normal col scaled × Back rows scaled)
          (from_field (inv x) >>= λ p. ok (store rows col (scale p (row_at rows col))))
  normalized_at col zero rows K h i e z = absurd (z refl)
  normalized_at col (suc a) rows K h i e z =
      let x_byte : at (row_at rows col).left col < 256 =
        at-IsByte (row_at rows col).left col
          (All-row_at (IsFull n [] []) rows col i.full (omega (arith, i.count))).left_bytes in
      let (p, found, byte, one) = inv-mul a (omega arith) in
      rw found (
        scaled-IsNormal n [] [] tt tt col p rows h byte i (ap (λ (t : ℕ). mul t p) e ∙ one),
        λ ds b k.
            scale-IsKernel n ds b col p rows (omega (arith, i.count)) (positive p one) byte i.full
              k,
      )
    where
      positive : (p : ℕ) → mul (suc a) p ≡ 1 → 0 < p
      positive zero w = absurd (omega (arith, mul-zero (suc a)))
      positive (suc p) w = omega arith

  normalize-Traces :
      (col : ℕ) (rows : List Both) (K : Type 0)
      → col < n
      → Chosen col rows
      → Traces K (λ scaled. Normal col scaled × Back rows scaled) (normalize col rows)
  unfolding normalize
  normalize-Traces col rows K h (i, z) =
      if_cases (Traces K (λ scaled. Normal col scaled × Back rows scaled))
        (eqb (at (row_at rows col).left col) 1) _ _ (λ e. ((i, (eqb_iff _ 1).0 e), λ ds b k. k))
        (λ e. normalized_at col _ rows K h i refl z)

  step_column-Traces :
      (col : ℕ) (rows : List Both)
      → col < n
      → Start n col rows
      → Traces
          (HasKernel n rows)
          (λ next. Start n (suc col) next × Back rows next)
          (step_column col rows)
  unfolding step_column
  step_column-Traces col rows h i =
      Traces-bind (HasKernel n rows) (λ chosen. Chosen col chosen × Back rows chosen)
        (λ next. Start n (suc col) next × Back rows next) _ _ (choose_pivot-Traces col rows h i)
        λ chosen (c, b).
          Traces-bind (HasKernel n rows) (λ scaled. Normal col scaled × Back chosen scaled)
            (λ next. Start n (suc col) next × Back rows next) _ _
            (normalize-Traces col chosen (HasKernel n rows) h c)
            (λ scaled (w, d). (
              eliminate-IsReduced n [] [] tt tt col scaled h w,
              λ ds bytes k. b ds bytes (
                  d ds bytes (
                    eliminate-IsKernel n ds bytes col scaled (omega (arith, w.0.count)) w.0.full
                      k)),
            ))

  columns-Traces :
      (left col : ℕ) (rows : List Both)
      → left + col ≡ n
      → Start n col rows
      → Traces (HasKernel n rows) (λ done. Unit {0}) (columns left col rows)
  unfolding columns
  columns-Traces zero col rows e i = tt
  columns-Traces (suc left) col rows e i =
      Traces-bind (HasKernel n rows) (λ next. Start n (suc col) next × Back rows next)
        (λ done. Unit {0}) _ _ (step_column-Traces col rows (omega arith) i)
        λ next (w, b).
          Traces-mono (HasKernel n next) (HasKernel n rows) (λ done. Unit {0}) (λ done. Unit {0})
            (columns left (suc col) next) (HasKernel-Back n rows next b) (λ done u. u)
            (columns-Traces left (suc col) next (omega arith) w)

-- A column of bytes other than 0 that every row of the matrix takes to 0.
pub record IsDependent (matrix : List Row) : Type 0 where
  pub dead : List ℕ
  pub bytes : IsBytes dead
  pub width : length dead ≡ length matrix
  pub place : ℕ
  pub inside : place < length matrix
  pub one : at dead place ≡ 1
  pub zeros : (j : ℕ) → j < length matrix → dot (matrix_row matrix j) dead ≡ 0

beside-zeros :
    (ds : List ℕ) (xs ys : List Row)
    → length xs ≡ length ys
    → IsKernel ds (beside xs ys)
    → (j : ℕ) → j < length xs
    → dot (matrix_row xs j) ds ≡ 0
beside-zeros ds [] ys e h j l = absurd (omega arith)
beside-zeros ds (x ∷ xs) [] e h j l = absurd (omega arith)
beside-zeros ds (x ∷ xs) (y ∷ ys) e (z, h) zero l = z
beside-zeros ds (x ∷ xs) (y ∷ ys) e (z, h) (suc j) l =
    beside-zeros ds xs ys (omega arith) h j (omega arith)

dot-nil : (row : Row) → dot row [] ≡ 0
dot-nil [] = refl
dot-nil (c ∷ row) = refl

length-units : (k n i : ℕ) → length (tabulate (unit_row k) n i) ≡ n
unfolding tabulate
length-units k zero i = refl
length-units k (suc n) i = ap suc (length-units k n (suc i))

beside_nil-IsFull :
    (n : ℕ) (xs : List Row) (i : ℕ)
    → All (IsRow n) xs
    → All (IsFull n [] []) (beside xs (tabulate (unit_row n) (length xs) i))
unfolding tabulate
beside_nil-IsFull n [] i h = tt
beside_nil-IsFull n (x ∷ xs) i (p, h) = (
  record {
    left_width = p.0;
    right_width = length-unit_row n i;
    left_bytes = p.1;
    right_bytes = unit_row-IsBytes n i;
    balanced = dot-nil x ∙ sym (dot-nil (unit_row n i));
  },
  beside_nil-IsFull n xs (suc i) h,
)

-- When invertMatrix throws for a square matrix of bytes, the matrix takes a column of bytes that is
-- not 0 everywhere to 0.
pub invert_matrix-Traces :
    (matrix : List Row)
    → All (IsRow (length matrix)) matrix
    → Traces (IsDependent matrix) (λ done. Unit {0}) (invert_matrix matrix)
unfolding invert_matrix identity_rows
invert_matrix-Traces matrix h =
    let n : ℕ = length matrix in
    let rows : List Both = beside matrix (tabulate (unit_row n) n 0) in
    Traces-bind (IsDependent matrix) (λ done. Unit {0}) (λ done. Unit {0}) (columns n 0 rows) _
      (Traces-mono (HasKernel n rows) (IsDependent matrix) (λ done. Unit {0}) (λ done. Unit {0})
        (columns n 0 rows)
        (λ k. record {
          dead = k.dead;
          bytes = k.bytes;
          width = k.width;
          place = k.place;
          inside = k.inside;
          one = k.one;
          zeros =
              beside-zeros k.dead matrix (tabulate (unit_row n) n 0) (sym (length-units n n 0))
                k.kernel;
        })
        (λ done u. u)
        (columns-Traces n n 0 rows (omega arith) record {
          count = length-beside matrix n 0;
          full = beside_nil-IsFull n matrix 0 h;
          ones = λ c p q. absurd (omega arith);
          zeros = λ r c p q. absurd (omega arith);
        }))
      (λ done u. u)
