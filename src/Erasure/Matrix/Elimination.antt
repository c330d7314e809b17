-- ===== src/Erasure/Matrix/Elimination.antt =====
-- The elimination of one column: each row keeps its meaning for every pair of columns, and one
-- more column becomes that of the identity.
use Prim.Native.Nat.{bit_xor}
use ccn.Prelude.{ℕ, zero, suc, ◌≤◌, ◌<◌, ◌≡◌, ◌≢◌, refl, ap, sym, subst, ◌∙◌, arith, ◌⊎◌, inl, inr}
use ccn.Prelude.{List, length, drop, All, Option, none, some, Bool-cases, eqb, eqb_iff}
use ccn.Prelude.{if_cases, length-drop}
use ccn.Erasure.Outcome.{ok, ◌>>=◌, from_field}
use ccn.Erasure.Gf256.{at, store, mul, inv}
use ccn.Erasure.Gf256.Xor.{xor-zero}
use ccn.Erasure.Gf256.Laws.{inv-mul}
use ccn.Erasure.Matrix.{
  Both, row_at, find_nonzero, swap_rows, bring, choose_pivot, scale, normalize, reduce,
}
use ccn.Erasure.Matrix.Dot.{
  IsBytes, dot, zero-mul, scaled-IsBytes, length-scaled, at-scaled, dot-scaled, add_scaled-IsBytes,
  length-add_scaled, at-add_scaled, dot-add_scaled, at-IsByte,
}
use ccn.Erasure.Matrix.Rows.{
  Gives, All-store, All-row_at, row_at-store_self, row_at-store_ne, row_at-drop, find_nonzero-found,
  row_at-swap_second, row_at-swap_first, row_at-swap_ne, length-swap_rows, length-store,
}

-- A row of both matrices, the left one on `ds` equal to the right one on `rs`.
pub record IsFull (n : ℕ) (ds rs : List ℕ) (x : Both) : Type 0 where
  pub left_width : length x.left ≡ n
  pub right_width : length x.right ≡ n
  pub left_bytes : IsBytes x.left
  pub right_bytes : IsBytes x.right
  pub balanced : dot x.left ds ≡ dot x.right rs

-- The columns before `col` are those of the identity.
pub record IsReduced (n : ℕ) (ds rs : List ℕ) (col : ℕ) (rows : List Both) : Type 0 where
  pub count : length rows ≡ n
  pub full : All (IsFull n ds rs) rows
  pub ones : (c : ℕ) → c < col → c < n → at (row_at rows c).left c ≡ 1
  pub zeros : (r c : ℕ) → c < col → r ≢ c → at (row_at rows r).left c ≡ 0

abbrev IsZeroAt : List Both → ℕ → ℕ → Type 0
IsZeroAt rows c r = at (row_at rows r).left c ≡ 0

pub equal_cases : (a b : ℕ) → (a ≡ b) ⊎ (a ≢ b)
equal_cases a b = elim (Bool-cases (eqb a b)) [
  | inl e ↦ inl ((eqb_iff a b).0 e)
  | inr e ↦ inr (λ h. ground (arith, eqb_iff a b))
]

pub below_cases : (a n : ℕ) → (a < n) ⊎ (n ≤ a)
below_cases a n = ground arith

at-scale : (p : ℕ) (x : Both) (c : ℕ) → at (scale p x).left c ≡ mul (at x.left c) p
unfolding scale
at-scale p x c = at-scaled p x.left c

module _ (n : ℕ) (ds rs : List ℕ) (ds_bytes : IsBytes ds) (rs_bytes : IsBytes rs) where
  scale-IsFull : (p : ℕ) (x : Both) → p < 256 → IsFull n ds rs x → IsFull n ds rs (scale p x)
  unfolding scale
  scale-IsFull p x h f = record {
    left_width = length-scaled p x.left ∙ f.left_width;
    right_width = length-scaled p x.right ∙ f.right_width;
    left_bytes = scaled-IsBytes p x.left h f.left_bytes;
    right_bytes = scaled-IsBytes p x.right h f.right_bytes;
    balanced =
        dot-scaled p x.left ds h f.left_bytes ds_bytes
        ∙ ap (mul p) f.balanced
        ∙ sym (dot-scaled p x.right rs h f.right_bytes rs_bytes);
  }

  pub reduce-IsFull :
      (f : ℕ) (pivot x : Both)
      → f < 256
      → IsFull n ds rs pivot
      → IsFull n ds rs x
      → IsFull n ds rs (reduce f pivot x)
  unfolding reduce
  reduce-IsFull zero pivot x h p q = q
  reduce-IsFull (suc f) pivot x h p q =
      let l : length x.left ≡ length pivot.left = q.left_width ∙ sym p.left_width in
      let r : length x.right ≡ length pivot.right = q.right_width ∙ sym p.right_width in
      record {
        left_width = length-add_scaled (suc f) x.left pivot.left l ∙ q.left_width;
        right_width = length-add_scaled (suc f) x.right pivot.right r ∙ q.right_width;
        left_bytes = add_scaled-IsBytes (suc f) x.left pivot.left h q.left_bytes p.left_bytes;
        right_bytes = add_scaled-IsBytes (suc f) x.right pivot.right h q.right_bytes p.right_bytes;
        balanced =
            dot-add_scaled (suc f) x.left pivot.left ds l h q.left_bytes p.left_bytes ds_bytes
            ∙ rw (q.balanced, p.balanced) refl
            ∙ sym (
                dot-add_scaled (suc f) x.right pivot.right rs r h q.right_bytes p.right_bytes
                  rs_bytes);
      }

  pub at-reduce :
      (f : ℕ) (pivot x : Both) (c : ℕ)
      → IsFull n ds rs pivot
      → IsFull n ds rs x
      → at (reduce f pivot x).left c ≡ bit_xor (at x.left c) (mul f (at pivot.left c))
  unfolding reduce
  at-reduce zero pivot x c p q = rw (zero-mul, xor-zero) refl
  at-reduce (suc f) pivot x c p q =
      at-add_scaled (suc f) x.left pivot.left c (q.left_width ∙ sym p.left_width)

  pub swap-IsReduced :
      (col s : ℕ) (rows : List Both)
      → col < s
      → s < n
      → IsReduced n ds rs col rows
      → IsReduced n ds rs col (swap_rows rows col s)
  swap-IsReduced col s rows h k i =
      let a : col < length rows = omega (arith, i.count) in
      let b : s < length rows = omega (arith, i.count) in
      record {
        count = length-swap_rows rows col s ∙ i.count;
        full =
            unfold swap_rows in
            All-store (IsFull n ds rs) _ s _
              (All-store (IsFull n ds rs) rows col _ i.full
                (All-row_at (IsFull n ds rs) rows s i.full b))
              (All-row_at (IsFull n ds rs) rows col i.full a);
        ones = λ c p q.
            rw (row_at-swap_ne rows col s c (λ e. omega arith) (λ e. omega arith)) (i.ones c p q);
        zeros = λ r c p q. elim (equal_cases col r) [
          | inl e ↦ subst (IsZeroAt (swap_rows rows col s) c) e (
              rw (row_at-swap_first rows col s a (λ e. omega arith))
                (i.zeros s c p (λ e. omega arith)))
          | inr e ↦ elim (equal_cases s r) [
            | inl f ↦
                subst (IsZeroAt (swap_rows rows col s) c) f
                  (rw (row_at-swap_second rows col s b) (i.zeros col c p (λ e. omega arith)))
            | inr f ↦ rw (row_at-swap_ne rows col s r e f) (i.zeros r c p q)
          ]
        ];
      }

  -- What the choice of a row leaves: the entry on the diagonal is not 0.
  abbrev pub IsChosen : ℕ → List Both → Type 0
  IsChosen col rows = IsReduced n ds rs col rows × (at (row_at rows col).left col ≢ 0)

  pub bring-IsChosen :
      (col : ℕ) (rows : List Both) (o : Option ℕ)
      → col < n
      → IsReduced n ds rs col rows
      → find_nonzero col (suc col) (drop (suc col) rows) ≡ o
      → Gives (IsChosen col) (bring col rows o)
  unfolding bring
  bring-IsChosen col rows none h i e = refl
  bring-IsChosen col rows (some s) h i e =
      let (j, p, q, z) = find_nonzero-found col (suc col) (drop (suc col) rows) s e in
      let b : s < n = omega (arith, i.count, length-drop (suc col) rows) in
      (
        swap-IsReduced col s rows (omega arith) b i,
        λ w. z (
            rw (row_at-drop (suc col) j rows, sym p)
              (rw (row_at-swap_first rows col s (omega (arith, i.count)) (λ e. omega arith)) at w)),
      )

  pub choose_pivot-IsChosen :
      (col : ℕ) (rows : List Both)
      → col < n
      → IsReduced n ds rs col rows
      → Gives (IsChosen col) (choose_pivot col rows)
  unfolding choose_pivot
  choose_pivot-IsChosen col rows h i =
      if_cases (Gives (IsChosen col)) (eqb (at (row_at rows col).left col) 0) _ _
        (λ e. bring-IsChosen col rows _ h i refl)
        (λ e. (i, λ z. ground (arith, eqb_iff (at (row_at rows col).left col) 0)))

  abbrev pub IsNormal : ℕ → List Both → Type 0
  IsNormal col rows = IsReduced n ds rs col rows × (at (row_at rows col).left col ≡ 1)

  pub scaled-IsNormal :
      (col p : ℕ) (rows : List Both)
      → col < n
      → p < 256
      → IsReduced n ds rs col rows
      → mul (at (row_at rows col).left col) p ≡ 1
      → IsNormal col (store rows col (scale p (row_at rows col)))
  scaled-IsNormal col p rows h l i e =
      let a : col < length rows = omega (arith, i.count) in
      let v : Both = scale p (row_at rows col) in
      (
        record {
          count = length-store rows col v ∙ i.count;
          full =
              All-store (IsFull n ds rs) rows col v i.full (
                scale-IsFull p (row_at rows col) l (All-row_at (IsFull n ds rs) rows col i.full a));
          ones = λ c q r. rw (row_at-store_ne rows col c v (λ e. omega arith)) (i.ones c q r);
          zeros = λ r c q z. elim (equal_cases col r) [
            | inl f ↦ subst (IsZeroAt (store rows col v) c) f (
                rw (row_at-store_self rows col v a) (
                  at-scale p (row_at rows col) c
                  ∙ rw (i.zeros col c q (λ e. omega arith)) (zero-mul p)))
            | inr f ↦ rw (row_at-store_ne rows col r v f) (i.zeros r c q z)
          ];
        },
        rw (row_at-store_self rows col v a) (at-scale p (row_at rows col) col ∙ e),
      )

  pub normalize_at :
      (col x : ℕ) (rows : List Both)
      → col < n
      → IsReduced n ds rs col rows
      → at (row_at rows col).left col ≡ x
      → x ≢ 0
      → Gives
          (IsNormal col)
          (from_field (inv x) >>= λ p. ok (store rows col (scale p (row_at rows col))))
  normalize_at col zero rows h i e z = absurd (z refl)
  normalize_at col (suc a) rows h i e z =
      let x_byte : at (row_at rows col).left col < 256 =
        at-IsByte (row_at rows col).left col
          (All-row_at (IsFull n ds rs) rows col i.full (omega (arith, i.count))).left_bytes in
      let (p, found, byte, one) = inv-mul a (omega arith) in
      rw found (scaled-IsNormal col p rows h byte i (ap (λ (t : ℕ). mul t p) e ∙ one))

  pub normalize-IsNormal :
      (col : ℕ) (rows : List Both)
      → col < n
      → IsChosen col rows
      → Gives (IsNormal col) (normalize col rows)
  unfolding normalize
  normalize-IsNormal col rows h (i, z) =
      if_cases (Gives (IsNormal col)) (eqb (at (row_at rows col).left col) 1) _ _
        (λ e. (i, (eqb_iff _ 1).0 e)) (λ e. normalize_at col _ rows h i refl z)
