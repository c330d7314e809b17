-- ===== src/Erasure/Matrix/Clearing.antt =====
-- The column under the pivot is cleared, and after the last column the left rows are the identity.
use Prim.Native.Nat.{bit_xor}
use ccn.Prelude.{ℕ, zero, suc, ◌+◌, ◌≤◌, ◌<◌, ◌≡◌, ◌≢◌, refl, ap, sym, subst, ◌∙◌, arith, inl, inr}
use ccn.Prelude.{List, [], ◌∷◌, length, All, eqb, eqb_iff, if_cases, true, false}
use ccn.Erasure.Gf256.{at, mul}
use ccn.Erasure.Gf256.Xor.{xor-zero, xor_self}
use ccn.Erasure.Gf256.Laws.{mul-zero}
use ccn.Erasure.Matrix.{Both, row_at, unit_row, reduce, eliminate, step_column, columns}
use ccn.Erasure.Matrix.Dot.{
  IsBytes, dot, at-ge, mul-one, at-IsByte, at_ext, dot-unit_row, length-unit_row, at-unit_row_self,
  at-unit_row_ne,
}
use ccn.Erasure.Matrix.Rows.{Gives, Gives-bind, All-row_at, row_at-ge}
use ccn.Erasure.Matrix.Elimination.{
  IsFull, IsReduced, IsChosen, IsNormal, equal_cases, below_cases, reduce-IsFull, at-reduce,
  choose_pivot-IsChosen, normalize-IsNormal,
}

pub length-eliminate :
    (col : ℕ) (pivot : Both) (r : ℕ) (rows : List Both)
    → length (eliminate col pivot r rows) ≡ length rows
unfolding eliminate
length-eliminate col pivot r [] = refl
length-eliminate col pivot r (x ∷ rows) = ap suc (length-eliminate col pivot (suc r) rows)

pub row_at-eliminate_self :
    (col : ℕ) (pivot : Both) (r i : ℕ) (rows : List Both)
    → r + i ≡ col
    → row_at (eliminate col pivot r rows) i ≡ row_at rows i
unfolding eliminate
row_at-eliminate_self col pivot r i [] e = refl
row_at-eliminate_self col pivot r zero (x ∷ rows) e =
    let h : eqb r col ≡ true = (eqb_iff r col).1 (omega arith) in rw h refl
row_at-eliminate_self col pivot r (suc i) (x ∷ rows) e =
    row_at-eliminate_self col pivot (suc r) i rows (omega arith)

pub row_at-eliminate_ne :
    (col : ℕ) (pivot : Both) (r i : ℕ) (rows : List Both)
    → r + i ≢ col
    → i < length rows
    → row_at (eliminate col pivot r rows) i
      ≡ reduce (at (row_at rows i).left col) pivot (row_at rows i)
unfolding eliminate
row_at-eliminate_ne col pivot r i [] e l = absurd (omega arith)
row_at-eliminate_ne col pivot r zero (x ∷ rows) e l =
    let h : eqb r col ≡ false = ground (arith, eqb_iff r col) in rw h refl
row_at-eliminate_ne col pivot r (suc i) (x ∷ rows) e l =
    row_at-eliminate_ne col pivot (suc r) i rows (λ w. e (omega arith)) (omega arith)

module _ (n : ℕ) (ds rs : List ℕ) (ds_bytes : IsBytes ds) (rs_bytes : IsBytes rs) where
  eliminate-IsFull :
      (col : ℕ) (pivot : Both) (r : ℕ) (rows : List Both)
      → IsFull n ds rs pivot
      → All (IsFull n ds rs) rows
      → All (IsFull n ds rs) (eliminate col pivot r rows)
  unfolding eliminate
  eliminate-IsFull col pivot r [] p h = tt
  eliminate-IsFull col pivot r (x ∷ rows) p (q, h) = (
    if_cases (IsFull n ds rs) (eqb r col) _ _ (λ _. q)
        (λ _.
          reduce-IsFull n ds rs ds_bytes rs_bytes (at x.left col) pivot x
            (at-IsByte x.left col q.left_bytes) p q),
    eliminate-IsFull col pivot (suc r) rows p h,
  )

  -- An entry of another row after the elimination.
  at-eliminate :
      (col r c : ℕ) (rows : List Both)
      → IsReduced n ds rs col rows
      → col < n
      → r < n
      → r ≢ col
      → at (row_at (eliminate col (row_at rows col) 0 rows) r).left c
        ≡ bit_xor
            (at (row_at rows r).left c)
            (mul (at (row_at rows r).left col) (at (row_at rows col).left c))
  at-eliminate col r c rows i h l e =
      ap (λ (x : Both). at x.left c)
        (row_at-eliminate_ne col (row_at rows col) 0 r rows (λ w. e (omega arith))
          (omega (arith, i.count)))
      ∙ at-reduce n ds rs ds_bytes rs_bytes (at (row_at rows r).left col) (row_at rows col)
          (row_at rows r) c (All-row_at (IsFull n ds rs) rows col i.full (omega (arith, i.count)))
          (All-row_at (IsFull n ds rs) rows r i.full (omega (arith, i.count)))

  abbrev cleared : ℕ → List Both → List Both
  cleared col rows = eliminate col (row_at rows col) 0 rows

  cleared_diagonal : (col : ℕ) (rows : List Both) → row_at (cleared col rows) col ≡ row_at rows col
  cleared_diagonal col rows = row_at-eliminate_self col (row_at rows col) 0 col rows (omega arith)

  -- In an earlier column no entry changes.
  at-cleared_before :
      (col r c : ℕ) (rows : List Both)
      → IsReduced n ds rs col rows
      → col < n
      → r < n
      → r ≢ col
      → c < col
      → at (row_at (cleared col rows) r).left c ≡ at (row_at rows r).left c
  at-cleared_before col r c rows i h l e b =
      at-eliminate col r c rows i h l e
      ∙ rw (i.zeros col c b (λ w. omega arith), mul-zero, xor-zero) refl

  cleared-ones :
      (col c : ℕ) (rows : List Both)
      → col < n
      → IsNormal n ds rs ds_bytes rs_bytes col rows
      → c < suc col
      → c < n
      → at (row_at (cleared col rows) c).left c ≡ 1
  cleared-ones col c rows h (i, one) p q = elim (equal_cases c col) [
    | inl e ↦ rw (e, cleared_diagonal col rows) one
    | inr e ↦ at-cleared_before col c c rows i h q e (omega arith) ∙ i.ones c (omega arith) q
  ]

  cleared-column :
      (col r : ℕ) (rows : List Both)
      → col < n
      → IsNormal n ds rs ds_bytes rs_bytes col rows
      → r < n
      → r ≢ col
      → at (row_at (cleared col rows) r).left col ≡ 0
  cleared-column col r rows h (i, one) l e =
      at-eliminate col r col rows i h l e
      ∙ rw
          (
            one,
            mul-one _ (
                at-IsByte (row_at rows r).left col
                  (All-row_at (IsFull n ds rs) rows r i.full (omega (arith, i.count))).left_bytes),
          )
          (xor_self (at (row_at rows r).left col))

  cleared-zeros :
      (col r c : ℕ) (rows : List Both)
      → col < n
      → IsNormal n ds rs ds_bytes rs_bytes col rows
      → c < suc col
      → r ≢ c
      → at (row_at (cleared col rows) r).left c ≡ 0
  cleared-zeros col r c rows h (i, one) p q = elim (equal_cases r col) [
    | inl e ↦ rw (e, cleared_diagonal col rows) (i.zeros col c (omega arith) (λ w. omega arith))
    | inr e ↦ elim (below_cases r n) [
      | inr g ↦
          ap (λ (x : List ℕ). at x c)
            (row_at-ge (cleared col rows) r
              (omega (arith, i.count, length-eliminate col (row_at rows col) 0 rows)))
      | inl l ↦ elim (equal_cases c col) [
        | inl f ↦ rw f (cleared-column col r rows h (i, one) l e)
        | inr f ↦ at-cleared_before col r c rows i h l e (omega arith) ∙ i.zeros r c (omega arith) q
      ]
    ]
  ]

  pub eliminate-IsReduced :
      (col : ℕ) (rows : List Both)
      → col < n
      → IsNormal n ds rs ds_bytes rs_bytes col rows
      → IsReduced n ds rs (suc col) (cleared col rows)
  eliminate-IsReduced col rows h (i, one) = record {
    count = length-eliminate col (row_at rows col) 0 rows ∙ i.count;
    full =
        eliminate-IsFull col (row_at rows col) 0 rows
          (All-row_at (IsFull n ds rs) rows col i.full (omega (arith, i.count))) i.full;
    ones = λ c p q. cleared-ones col c rows h (i, one) p q;
    zeros = λ r c p q. cleared-zeros col r c rows h (i, one) p q;
  }

  step_column-IsReduced :
      (col : ℕ) (rows : List Both)
      → col < n
      → IsReduced n ds rs col rows
      → Gives (IsReduced n ds rs (suc col)) (step_column col rows)
  unfolding step_column
  step_column-IsReduced col rows h i =
      Gives-bind (IsChosen n ds rs ds_bytes rs_bytes col) (IsReduced n ds rs (suc col)) _ _
        (choose_pivot-IsChosen n ds rs ds_bytes rs_bytes col rows h i)
        λ chosen c.
          Gives-bind (IsNormal n ds rs ds_bytes rs_bytes col) (IsReduced n ds rs (suc col)) _ _
            (normalize-IsNormal n ds rs ds_bytes rs_bytes col chosen h c)
            (λ done w. eliminate-IsReduced col done h w)

  pub columns-IsReduced :
      (left col : ℕ) (rows : List Both)
      → left + col ≡ n
      → IsReduced n ds rs col rows
      → Gives (IsReduced n ds rs n) (columns left col rows)
  unfolding columns
  columns-IsReduced zero col rows e i =
      let f : col ≡ n = omega arith in subst (λ (c : ℕ). IsReduced n ds rs c rows) f i
  columns-IsReduced (suc left) col rows e i =
      Gives-bind (IsReduced n ds rs (suc col)) (IsReduced n ds rs n) _ _
        (step_column-IsReduced col rows (omega arith) i)
        (λ next w. columns-IsReduced left (suc col) next (omega arith) w)

  -- At the end the left rows are those of the identity.
  pub reduced-dot :
      (rows : List Both) (j : ℕ)
      → length ds ≡ n
      → IsReduced n ds rs n rows
      → j < n
      → dot (row_at rows j).right rs ≡ at ds j
  reduced-dot rows j e i h =
      let full = All-row_at (IsFull n ds rs) rows j i.full (omega (arith, i.count)) in
      let same : (row_at rows j).left ≡ unit_row n j =
        at_ext _ _ (full.left_width ∙ sym (length-unit_row n j)) (λ c. entry c) in
      sym full.balanced ∙ ap (λ (x : List ℕ). dot x ds) same ∙ dot-unit_row n j ds h e ds_bytes
    where
      past : (c : ℕ) → n ≤ c → at (row_at rows j).left c ≡ 0
      past c g = at-ge _ c (
          omega (
            arith,
            (All-row_at (IsFull n ds rs) rows j i.full (omega (arith, i.count))).left_width,
          ))

      entry : (c : ℕ) → at (row_at rows j).left c ≡ at (unit_row n j) c
      entry c = elim (equal_cases j c) [
        | inl f ↦ rw (sym f) (i.ones j h h ∙ sym (at-unit_row_self n j h))
        | inr f ↦ elim (below_cases c n) [
          | inl l ↦ i.zeros j c l f ∙ sym (at-unit_row_ne n j c f)
          | inr g ↦ past c g ∙ sym (at-unit_row_ne n j c f)
        ]
      ]
