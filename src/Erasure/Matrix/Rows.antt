-- ===== src/Erasure/Matrix/Rows.antt =====
-- Rows that are stored, swapped and read, and outcomes that can only fail as singular.
use ccn.Prelude.{ℕ, zero, suc, ◌+◌, ◌≤◌, ◌<◌, ◌≡◌, ◌≢◌, refl, ap, sym, ◌∙◌, arith}
use ccn.Prelude.{List, [], ◌∷◌, length, drop, All, some, inl, inr}
use ccn.Prelude.{Bool-cases, eqb, eqb_iff}
use ccn.Erasure.Outcome.{Outcome, ok, fail, ◌>>=◌, Failure}
use ccn.Erasure.Gf256.{at, store}
use ccn.Erasure.Matrix.{Both, row_at, find_nonzero, swap_rows}

-- The result has the property, or the matrix was found to be singular.
abbrev pub Gives {ℓ} : {A : Type ℓ} → (A → Type 0) → Outcome A → Type 0
Gives P (ok a) = P a
Gives P (fail e) = e ≡ Failure.singular

pub Gives-bind {ℓ κ} :
    {A : Type ℓ} {B : Type κ} (P : A → Type 0) (Q : B → Type 0) (o : Outcome A) (f : A → Outcome B)
    → Gives P o
    → ((a : A) → P a → Gives Q (f a))
    → Gives Q (o >>= f)
Gives-bind P Q (ok a) f h k = k a h
Gives-bind P Q (fail e) f h k = h

pub Gives-all {ℓ} :
    {A : Type ℓ} (P : ℕ → A → Type 0) (o : Outcome A)
    → ((p : ℕ) → Gives (P p) o)
    → Gives (λ a. (p : ℕ) → P p a) o
Gives-all P (ok a) h = h
Gives-all P (fail e) h = h 0

module _ {ℓ} {A : Type ℓ} where
  pub length-store : (xs : List A) (i : ℕ) (v : A) → length (store xs i v) ≡ length xs
  length-store [] i v = refl
  length-store (x ∷ xs) zero v = refl
  length-store (x ∷ xs) (suc i) v = ap suc (length-store xs i v)

module _ (P : Both → Type 0) where
  pub All-store : (rows : List Both) (i : ℕ) (v : Both) → All P rows → P v → All P (store rows i v)
  All-store [] i v h p = tt
  All-store (x ∷ rows) zero v (q, h) p = (p, h)
  All-store (x ∷ rows) (suc i) v (q, h) p = (q, All-store rows i v h p)

  pub All-row_at : (rows : List Both) (i : ℕ) → All P rows → i < length rows → P (row_at rows i)
  All-row_at [] i h l = absurd (omega arith)
  All-row_at (x ∷ rows) zero (q, h) l = q
  All-row_at (x ∷ rows) (suc i) (q, h) l = All-row_at rows i h (omega arith)

pub row_at-store_self :
    (rows : List Both) (i : ℕ) (v : Both) → i < length rows → row_at (store rows i v) i ≡ v
row_at-store_self [] i v h = absurd (omega arith)
row_at-store_self (x ∷ rows) zero v h = refl
row_at-store_self (x ∷ rows) (suc i) v h = row_at-store_self rows i v (omega arith)

pub row_at-store_ne :
    (rows : List Both) (i j : ℕ) (v : Both) → i ≢ j → row_at (store rows i v) j ≡ row_at rows j
row_at-store_ne [] i j v h = refl
row_at-store_ne (x ∷ rows) zero zero v h = absurd (h refl)
row_at-store_ne (x ∷ rows) zero (suc j) v h = refl
row_at-store_ne (x ∷ rows) (suc i) zero v h = refl
row_at-store_ne (x ∷ rows) (suc i) (suc j) v h = row_at-store_ne rows i j v (λ e. h (ap suc e))

pub row_at-drop : (n i : ℕ) (rows : List Both) → row_at (drop n rows) i ≡ row_at rows (n + i)
row_at-drop zero i rows = let e : 0 + i ≡ i = omega arith in rw e refl
row_at-drop (suc n) i [] = refl
row_at-drop (suc n) i (x ∷ rows) =
    let e : suc n + i ≡ suc (n + i) = omega arith in rw e (row_at-drop n i rows)

-- The row that the search finds has another entry than 0.
pub find_nonzero-found :
    (col r : ℕ) (rows : List Both) (s : ℕ)
    → find_nonzero col r rows ≡ some s
    → (i : ℕ) × (s ≡ r + i) × (i < length rows) × (at (row_at rows i).left col ≢ 0)
unfolding find_nonzero
find_nonzero-found col r [] s h = absurd (cc)
find_nonzero-found col r (x ∷ rows) s h = elim (Bool-cases (eqb (at x.left col) 0)) [
  | inl e ↦
      let (i, p, q, n) = find_nonzero-found col (suc r) rows s (rw e at h) in
      (suc i, omega arith, omega arith, n)
  | inr e ↦
      let g : some r ≡ some s = rw e at h in
      (0, ground arith, omega arith, λ z. ground (arith, eqb_iff (at x.left col) 0))
]

pub row_at-swap_second :
    (rows : List Both) (i j : ℕ) → j < length rows → row_at (swap_rows rows i j) j ≡ row_at rows i
unfolding swap_rows
row_at-swap_second rows i j h =
    row_at-store_self (store rows i (row_at rows j)) j (row_at rows i)
      (rw (length-store rows i (row_at rows j)) h)

pub row_at-swap_first :
    (rows : List Both) (i j : ℕ)
    → i < length rows
    → i ≢ j
    → row_at (swap_rows rows i j) i ≡ row_at rows j
unfolding swap_rows
row_at-swap_first rows i j h n =
    row_at-store_ne (store rows i (row_at rows j)) j i (row_at rows i) (λ e. n (sym e))
    ∙ row_at-store_self rows i (row_at rows j) h

pub row_at-swap_ne :
    (rows : List Both) (i j r : ℕ) → i ≢ r → j ≢ r → row_at (swap_rows rows i j) r ≡ row_at rows r
unfolding swap_rows
row_at-swap_ne rows i j r p q =
    row_at-store_ne (store rows i (row_at rows j)) j r (row_at rows i) q
    ∙ row_at-store_ne rows i r (row_at rows j) p

pub length-swap_rows : (rows : List Both) (i j : ℕ) → length (swap_rows rows i j) ≡ length rows
unfolding swap_rows
length-swap_rows rows i j =
    length-store (store rows i (row_at rows j)) j (row_at rows i)
    ∙ length-store rows i (row_at rows j)

-- A row past the end is empty.
pub row_at-ge : (rows : List Both) (i : ℕ) → length rows ≤ i → (row_at rows i).left ≡ []
row_at-ge [] i h = refl
row_at-ge (x ∷ rows) zero h = absurd (omega arith)
row_at-ge (x ∷ rows) (suc i) h = row_at-ge rows i (omega arith)
