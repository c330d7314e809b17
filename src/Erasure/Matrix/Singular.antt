-- ===== src/Erasure/Matrix/Singular.antt =====
-- A matrix that invertMatrix finds singular takes some column other than 0 to 0.
use Prim.Native.Nat.{bit_xor}
use ccn.Prelude.{ℕ, zero, suc, ◌-◌, ◌≤◌, ◌<◌, ◌≡◌, ◌≢◌, refl, ap, subst, ◌∙◌, arith, inl, inr}
use ccn.Prelude.{List, [], ◌∷◌, ◌++◌, length, length-append, replicate, All, All-append}
use ccn.Prelude.{none, some, Bool-cases, eqb, eqb_iff}
use ccn.Erasure.Gf256.{at}
use ccn.Erasure.Gf256.Xor.{zero-xor, xor-zero, xor_self}
use ccn.Erasure.Gf256.Laws.{mul-zero, one-mul}
use ccn.Erasure.Matrix.{Row, Both, row_at, find_nonzero}
use ccn.Erasure.Matrix.Dot.{IsBytes, dot, zero-mul, mul-one, at-IsByte, length-zeros, zeros-IsBytes}
use ccn.Erasure.Matrix.Rows.{All-row_at}
use ccn.Erasure.Matrix.Elimination.{IsFull, IsReduced, below_cases}
use ccn.Erasure.Matrix.Kernel.{IsAnnihilated, IsKernel, All-of-row_at}

dot-zeros_right : (xs : Row) (k : ℕ) → dot xs (replicate k 0) ≡ 0
dot-zeros_right [] k = refl
dot-zeros_right (x ∷ xs) zero = refl
dot-zeros_right (x ∷ xs) (suc k) = rw (mul-zero x, dot-zeros_right xs k) refl

-- A row of zeros before the place picks its entry there.
dot-none :
    (xs : Row) (ys : List ℕ) (k : ℕ)
    → IsBytes xs
    → ((c : ℕ) → c < length ys → at xs c ≡ 0)
    → dot xs (ys ++ (1 ∷ replicate k 0)) ≡ at xs (length ys)
dot-none [] [] k b h = refl
dot-none [] (y ∷ ys) k b h = refl
dot-none (x ∷ xs) [] k (p, b) h = rw (mul-one x p, dot-zeros_right xs k) (xor-zero x)
dot-none (x ∷ xs) (y ∷ ys) k (p, b) h =
    rw (h 0 (omega arith), zero-mul y, zero-xor (dot xs (ys ++ (1 ∷ replicate k 0))))
      (dot-none xs ys k b (λ c l. h (suc c) (omega arith)))

-- A row of the identity before the place adds another entry to it.
dot-one :
    (xs : Row) (ys : List ℕ) (k r : ℕ)
    → IsBytes xs
    → IsBytes ys
    → r < length ys
    → at xs r ≡ 1
    → ((c : ℕ) → c < length ys → r ≢ c → at xs c ≡ 0)
    → dot xs (ys ++ (1 ∷ replicate k 0)) ≡ bit_xor (at ys r) (at xs (length ys))
dot-one xs [] k r b d l e h = absurd (omega arith)
dot-one [] (y ∷ ys) k r b d l e h = absurd (omega arith)
dot-one (x ∷ xs) (y ∷ ys) k zero (p, b) (q, d) l e h =
    rw (e, one-mul y q, dot-none xs ys k b (λ c m. h (suc c) (omega arith) (λ w. omega arith))) refl
dot-one (x ∷ xs) (y ∷ ys) k (suc r) (p, b) (q, d) l e h =
    rw
      (
        h 0 (omega arith) (λ w. omega arith),
        zero-mul y,
        zero-xor (dot xs (ys ++ (1 ∷ replicate k 0))),
      )
      (dot-one xs ys k r b d (omega arith) e
        (λ c m n. h (suc c) (omega arith) (λ w. n (omega arith))))

-- The entries of the first rows in a column.
above : ℕ → ℕ → List Both → List ℕ
above col zero rows = []
above col (suc i) [] = []
above col (suc i) (x ∷ rows) = at x.left col ∷ above col i rows

length-above : (col i : ℕ) (rows : List Both) → i ≤ length rows → length (above col i rows) ≡ i
unfolding above
length-above col zero rows h = refl
length-above col (suc i) [] h = absurd (omega arith)
length-above col (suc i) (x ∷ rows) h = ap suc (length-above col i rows (omega arith))

at-above :
    (col i r : ℕ) (rows : List Both) → r < i → at (above col i rows) r ≡ at (row_at rows r).left col
unfolding above
at-above col zero r rows h = absurd (omega arith)
at-above col (suc i) r [] h = refl
at-above col (suc i) zero (x ∷ rows) h = refl
at-above col (suc i) (suc r) (x ∷ rows) h = at-above col i r rows (omega arith)

above-IsBytes :
    (n col i : ℕ) (rows : List Both) → All (IsFull n [] []) rows → IsBytes (above col i rows)
unfolding above
above-IsBytes n col zero rows h = tt
above-IsBytes n col (suc i) [] h = tt
above-IsBytes n col (suc i) (x ∷ rows) (f, h) =
    (at-IsByte x.left col f.left_bytes, above-IsBytes n col i rows h)

pub find_nonzero-none :
    (col r : ℕ) (rows : List Both)
    → find_nonzero col r rows ≡ none
    → (i : ℕ) → i < length rows
    → at (row_at rows i).left col ≡ 0
unfolding find_nonzero
find_nonzero-none col r [] h i l = absurd (omega arith)
find_nonzero-none col r (x ∷ rows) h i l = elim (Bool-cases (eqb (at x.left col) 0)) [
  | inr e ↦ let g : some r ≡ none = rw e at h in absurd (cc)
  | inl e ↦
      let rest = find_nonzero-none col (suc r) rows (rw e at h) in
      elim i as (λ (i : ℕ). i < suc (length rows) → at (row_at (x ∷ rows) i).left col ≡ 0) [
        | zero ↦ λ _. (eqb_iff (at x.left col) 0).0 e
        | suc i ↦ λ m. rest i (omega arith)
      ]
        l
]

-- A column other than 0 that all left rows take to 0.
pub record HasKernel (n : ℕ) (rows : List Both) : Type 0 where
  pub dead : List ℕ
  pub bytes : IsBytes dead
  pub width : length dead ≡ n
  pub place : ℕ
  pub inside : place < n
  pub one : at dead place ≡ 1
  pub kernel : IsKernel dead rows

at-append_ge : (xs ys : List ℕ) → at (xs ++ ys) (length xs) ≡ at ys 0
at-append_ge [] ys = refl
at-append_ge (x ∷ xs) ys = at-append_ge xs ys

module _ (n : ℕ) where
  abbrev pub Start : ℕ → List Both → Type 0
  Start col rows = IsReduced n [] [] col rows

  pub stuck-HasKernel :
      (col : ℕ) (rows : List Both)
      → col < n
      → Start col rows
      → ((r : ℕ) → col ≤ r → r < n → at (row_at rows r).left col ≡ 0)
      → HasKernel n rows
  stuck-HasKernel col rows h i none_left =
      let ys : List ℕ = above col col rows in
      let k : ℕ = n - suc col in
      let ys_length : length ys ≡ col = length-above col col rows (omega (arith, i.count)) in
      let ys_bytes : IsBytes ys = above-IsBytes n col col rows i.full in
      record {
        dead = ys ++ (1 ∷ replicate k 0);
        bytes =
            All-append (λ x. x < 256) ys (1 ∷ replicate k 0) ys_bytes
              (omega arith, zeros-IsBytes k);
        width = length-append ys (1 ∷ replicate k 0) ∙ omega (arith, ys_length, length-zeros k);
        place = col;
        inside = h;
        one =
            subst (λ (t : ℕ). at (ys ++ (1 ∷ replicate k 0)) t ≡ 1) ys_length
              (at-append_ge ys (1 ∷ replicate k 0));
        kernel = All-of-row_at (IsAnnihilated (ys ++ (1 ∷ replicate k 0))) rows λ r l.
            let full = All-row_at (IsFull n [] []) rows r i.full l in
            elim (below_cases r col) [
              | inl m ↦
                  dot-one (row_at rows r).left ys k r full.left_bytes ys_bytes (omega arith)
                    (i.ones r m (omega arith)) (λ c p q. i.zeros r c (omega arith) q)
                  ∙ ap (λ (t : ℕ). bit_xor (at ys r) (at (row_at rows r).left t)) ys_length
                  ∙ ap (λ (t : ℕ). bit_xor t (at (row_at rows r).left col))
                      (at-above col col r rows m)
                  ∙ xor_self (at (row_at rows r).left col)
              | inr m ↦
                  dot-none (row_at rows r).left ys k full.left_bytes
                    (λ c p. i.zeros r c (omega arith) (λ w. omega arith))
                  ∙ ap (at (row_at rows r).left) ys_length
                  ∙ none_left r m (omega (arith, i.count))
            ];
      }
