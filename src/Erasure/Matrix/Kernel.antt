-- ===== src/Erasure/Matrix/Kernel.antt =====
-- The columns that all left rows take to 0, and how a step keeps them.
use Prim.Native.Nat.{bit_xor}
use ccn.Prelude.{ℕ, zero, suc, ◌<◌, ◌≡◌, ◌≢◌, ap, sym, subst, ◌∙◌, arith, inl, inr}
use ccn.Prelude.{List, [], ◌∷◌, length, map, All}
use ccn.Erasure.Outcome.{Outcome, ok, fail, ◌>>=◌}
use ccn.Erasure.Gf256.{at, store, mul}
use ccn.Erasure.Gf256.Xor.{xor-zero}
use ccn.Erasure.Gf256.Laws.{mul-zero}
use ccn.Erasure.Gf256.Cauchy.{mul_zero_right}
use ccn.Erasure.Matrix.{Both, row_at, swap_rows, scale, reduce, eliminate}
use ccn.Erasure.Matrix.Dot.{IsBytes, dot, dot-lt, dot-scaled, dot-add_scaled, at-IsByte}
use ccn.Erasure.Matrix.Rows.{
  All-row_at, row_at-store_self, row_at-store_ne, row_at-swap_second, row_at-swap_first,
  row_at-swap_ne, length-swap_rows, length-store,
}
use ccn.Erasure.Matrix.Elimination.{IsFull, equal_cases}
use ccn.Erasure.Matrix.Clearing.{length-eliminate, row_at-eliminate_self, row_at-eliminate_ne}

-- An outcome of either kind.
abbrev pub Traces {ℓ} : {A : Type ℓ} → Type 0 → (A → Type 0) → Outcome A → Type 0
Traces K Q (ok a) = Q a
Traces K Q (fail e) = K

pub Traces-bind {ℓ κ} :
    {A : Type ℓ} {B : Type κ} (K : Type 0) (P : A → Type 0) (Q : B → Type 0) (o : Outcome A)
    (f : A → Outcome B)
    → Traces K P o
    → ((a : A) → P a → Traces K Q (f a))
    → Traces K Q (o >>= f)
Traces-bind K P Q (ok a) f h k = k a h
Traces-bind K P Q (fail e) f h k = h

pub Traces-mono {ℓ} :
    {A : Type ℓ} (K L : Type 0) (P Q : A → Type 0) (o : Outcome A)
    → (K → L)
    → ((a : A) → P a → Q a)
    → Traces K P o
    → Traces L Q o
Traces-mono K L P Q (ok a) f g h = g a h
Traces-mono K L P Q (fail e) f g h = f h

abbrev pub IsAnnihilated : List ℕ → Both → Type 0
IsAnnihilated ds x = dot x.left ds ≡ 0

abbrev pub IsKernel : List ℕ → List Both → Type 0
IsKernel ds rows = All (IsAnnihilated ds) rows

pub All-of-row_at :
    (P : Both → Type 0) (rows : List Both)
    → ((r : ℕ) → r < length rows → P (row_at rows r))
    → All P rows
All-of-row_at P [] h = tt
All-of-row_at P (x ∷ rows) h =
    (h 0 (omega arith), All-of-row_at P rows (λ r l. h (suc r) (omega arith)))

pub swap-IsKernel :
    (ds : List ℕ) (rows : List Both) (i j : ℕ)
    → i < length rows
    → j < length rows
    → i ≢ j
    → IsKernel ds (swap_rows rows i j)
    → IsKernel ds rows
swap-IsKernel ds rows i j a b n h = All-of-row_at (IsAnnihilated ds) rows λ r l.
    elim (equal_cases i r) [
      | inl e ↦
          subst (λ (x : Both). IsAnnihilated ds x)
            (row_at-swap_second rows i j b ∙ ap (row_at rows) e) (kept j b)
      | inr e ↦ elim (equal_cases j r) [
        | inl f ↦
            subst (λ (x : Both). IsAnnihilated ds x)
              (row_at-swap_first rows i j a n ∙ ap (row_at rows) f) (kept i a)
        | inr f ↦
            subst (λ (x : Both). IsAnnihilated ds x) (row_at-swap_ne rows i j r e f) (kept r l)
      ]
    ]
  where
    kept : (r : ℕ) → r < length rows → IsAnnihilated ds (row_at (swap_rows rows i j) r)
    kept r l =
        All-row_at (IsAnnihilated ds) (swap_rows rows i j) r h (rw (length-swap_rows rows i j) l)

module _ (n : ℕ) (ds : List ℕ) (ds_bytes : IsBytes ds) where
  unscale :
      (p : ℕ) (x : Both) → IsAnnihilated ds (scale p x) → dot (map (λ c. mul c p) x.left) ds ≡ 0
  unfolding scale
  unscale p x h = h

  reduced :
      (f : ℕ) (pivot x : Both)
      → IsFull n [] [] pivot
      → IsFull n [] [] x
      → f < 256
      → IsAnnihilated ds pivot
      → IsAnnihilated ds (reduce f pivot x)
      → IsAnnihilated ds x
  unfolding reduce
  reduced zero pivot x p q h e k = k
  reduced (suc f) pivot x p q h e k =
      sym (xor-zero (dot x.left ds))
      ∙ ap (bit_xor (dot x.left ds)) (sym (ap (mul (suc f)) e ∙ mul-zero (suc f)))
      ∙ sym (
          dot-add_scaled (suc f) x.left pivot.left ds (q.left_width ∙ sym p.left_width) h
            q.left_bytes p.left_bytes ds_bytes)
      ∙ k

  pub scale-IsKernel :
      (col p : ℕ) (rows : List Both)
      → col < length rows
      → 0 < p
      → p < 256
      → All (IsFull n [] []) rows
      → IsKernel ds (store rows col (scale p (row_at rows col)))
      → IsKernel ds rows
  scale-IsKernel col p rows l h k all kernel =
      let full = All-row_at (IsFull n [] []) rows col all l in
      let x : Both = row_at rows col in
      let scaled_dot : IsAnnihilated ds (scale p x) =
        subst (λ (y : Both). IsAnnihilated ds y) (row_at-store_self rows col (scale p x) l)
          (All-row_at (IsAnnihilated ds) (store rows col (scale p x)) col kernel
            (rw (length-store rows col (scale p x)) l)) in
      let this : IsAnnihilated ds x =
        mul_zero_right p (dot x.left ds) h k (dot-lt x.left ds full.left_bytes ds_bytes)
          (sym (dot-scaled p x.left ds k full.left_bytes ds_bytes) ∙ unscale p x scaled_dot) in
      All-of-row_at (IsAnnihilated ds) rows λ r m. elim (equal_cases col r) [
        | inl e ↦ subst (λ (y : ℕ). IsAnnihilated ds (row_at rows y)) e this
        | inr e ↦
            subst (λ (y : Both). IsAnnihilated ds y) (row_at-store_ne rows col r (scale p x) e)
              (All-row_at (IsAnnihilated ds) (store rows col (scale p x)) r kernel
                (rw (length-store rows col (scale p x)) m))
      ]

  pub eliminate-IsKernel :
      (col : ℕ) (rows : List Both)
      → col < length rows
      → All (IsFull n [] []) rows
      → IsKernel ds (eliminate col (row_at rows col) 0 rows)
      → IsKernel ds rows
  eliminate-IsKernel col rows l all kernel =
      let pivot : Both = row_at rows col in
      let pivot_full = All-row_at (IsFull n [] []) rows col all l in
      let after : (r : ℕ)
          → r < length rows
          → IsAnnihilated ds (row_at (eliminate col pivot 0 rows) r) =
        λ r m.
          All-row_at (IsAnnihilated ds) (eliminate col pivot 0 rows) r kernel
            (rw (length-eliminate col pivot 0 rows) m) in
      let this : IsAnnihilated ds pivot =
        subst (λ (y : Both). IsAnnihilated ds y)
          (row_at-eliminate_self col pivot 0 col rows (omega arith)) (after col l) in
      All-of-row_at (IsAnnihilated ds) rows λ r m. elim (equal_cases col r) [
        | inl e ↦ subst (λ (y : ℕ). IsAnnihilated ds (row_at rows y)) e this
        | inr e ↦
            reduced (at (row_at rows r).left col) pivot (row_at rows r) pivot_full
              (All-row_at (IsFull n [] []) rows r all m)
              (at-IsByte (row_at rows r).left col
                (All-row_at (IsFull n [] []) rows r all m).left_bytes)
              this
              (subst (λ (y : Both). IsAnnihilated ds y)
                (row_at-eliminate_ne col pivot 0 r rows (λ w. e (omega arith)) m) (after r m))
      ]
