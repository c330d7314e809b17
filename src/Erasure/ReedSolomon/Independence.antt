-- ===== src/Erasure/ReedSolomon/Independence.antt =====
-- Any k different rows of the encoding matrix are independent.
use ccn.Prelude.{
  ℕ, zero, suc, ◌+◌, ◌-◌, ◌≤◌, ◌<◌, ◌≡◌, ◌≢◌, refl, ap, sym, subst, ◌∙◌, arith, inl, inr,
}
use ccn.Prelude.{List, [], ◌∷◌, map, length, drop, All, All-mono}
use ccn.Erasure.Gf256.{at}
use ccn.Erasure.Gf256.Xor.{zero-xor}
use ccn.Erasure.Gf256.Laws.{mul-zero}
use ccn.Erasure.Gf256.Poles.{
  Term, fractions, IsFor, AreDistinct, AreZero, Vanish, AreApart, Vanish-AreZero,
}
use ccn.Erasure.Matrix.{Row, matrix_row}
use ccn.Erasure.Matrix.Dot.{IsBytes, dot, at-IsByte, dot-unit_row}
use ccn.Erasure.Matrix.Elimination.{equal_cases}
use ccn.Erasure.ReedSolomon.Code.{IsCode, IsCauchy}

-- Ascending without repetition, from `base` on.
abbrev pub Ascends : ℕ → List ℕ → Type 0
Ascends base [] = Unit {0}
Ascends base (c ∷ cs) = (base ≤ c) × Ascends (suc c) cs

-- The `n` numbers from `base` on against an ascending list: the gaps are those that are not in it,
-- and the later ones are what comes after.
data Sweep : ℕ → ℕ → List ℕ → List ℕ → List ℕ → Type 0 where
  swept : (base : ℕ) (cs : List ℕ) → Sweep base 0 cs [] cs
  hit :
      (base n : ℕ) (cs gaps later : List ℕ)
      → Sweep (suc base) n cs gaps later
      → Sweep base (suc n) (base ∷ cs) gaps later
  skip :
      (base n : ℕ) (cs gaps later : List ℕ)
      → Sweep (suc base) n cs gaps later
      → Sweep base (suc n) cs (base ∷ gaps) later

Ascends-later :
    (base : ℕ) (c : ℕ) (cs : List ℕ)
    → base ≢ c
    → Ascends base (c ∷ cs)
    → Ascends (suc base) (c ∷ cs)
Ascends-later base c cs n (l, a) = (omega arith, a)

Ascends-Sweep :
    (n base : ℕ) (cs : List ℕ)
    → Ascends base cs
    → (gaps : List ℕ) × (later : List ℕ) × Sweep base n cs gaps later × Ascends (base + n) later
Ascends-Sweep zero base cs a = (
  [],
  cs,
  Sweep.swept base cs,
  subst (λ (b : ℕ). Ascends b cs) {x = base} {y = base + 0} (omega arith) a,
)
Ascends-Sweep (suc n) base [] a =
    let (gaps, later, s, b) = Ascends-Sweep n (suc base) [] tt in
    (
      base ∷ gaps,
      later,
      Sweep.skip base n [] gaps later s,
      subst (λ (t : ℕ). Ascends t later) {x = suc base + n} {y = base + suc n} (omega arith) b,
    )
Ascends-Sweep (suc n) base (c ∷ cs) a = elim (equal_cases base c) [
  | inl e ↦
      let (gaps, later, s, b) =
        Ascends-Sweep n (suc base) cs (subst (λ (t : ℕ). Ascends (suc t) cs) (sym e) a.1) in
      (
        gaps,
        later,
        subst (λ (t : ℕ). Sweep base (suc n) (t ∷ cs) gaps later) e
            (Sweep.hit base n cs gaps later s),
        subst (λ (t : ℕ). Ascends t later) {x = suc base + n} {y = base + suc n} (omega arith) b,
      )
  | inr e ↦
      let (gaps, later, s, b) = Ascends-Sweep n (suc base) (c ∷ cs) (Ascends-later base c cs e a) in
      (
        base ∷ gaps,
        later,
        Sweep.skip base n (c ∷ cs) gaps later s,
        subst (λ (t : ℕ). Ascends t later) {x = suc base + n} {y = base + suc n} (omega arith) b,
      )
]

length-gaps :
    {base n : ℕ} {cs gaps later : List ℕ}
    → Sweep base n cs gaps later
    → length gaps + length cs ≡ n + length later
length-gaps (Sweep.swept base cs) = omega arith
length-gaps (Sweep.hit base n cs gaps later s) = omega (arith, length-gaps s)
length-gaps (Sweep.skip base n cs gaps later s) = omega (arith, length-gaps s)

later_all :
    {base n : ℕ} {cs gaps later : List ℕ} (P : ℕ → Type 0)
    → Sweep base n cs gaps later
    → All P cs
    → All P later
later_all P (Sweep.swept base cs) h = h
later_all P (Sweep.hit base n cs gaps later s) (p, h) = later_all P s h
later_all P (Sweep.skip base n cs gaps later s) h = later_all P s h

gap_bounds :
    {base n : ℕ} {cs gaps later : List ℕ}
    → Sweep base n cs gaps later
    → All (λ g. (base ≤ g) × (g < base + n)) gaps
gap_bounds (Sweep.swept base cs) = tt
gap_bounds (Sweep.hit base n cs gaps later s) =
    All-mono gaps (λ g h. (omega arith, omega arith)) (gap_bounds s)
gap_bounds (Sweep.skip base n cs gaps later s) =
    ((omega arith, omega arith), All-mono gaps (λ g h. (omega arith, omega arith)) (gap_bounds s))

abbrev terms : List ℕ → List ℕ → List Term
terms ds gaps = map (λ g. record { pole = g; coefficient = at ds g }) gaps

length-terms : (ds gaps : List ℕ) → length (terms ds gaps) ≡ length gaps
length-terms ds [] = refl
length-terms ds (g ∷ gaps) = ap suc (length-terms ds gaps)

terms_all :
    (P : Term → Type 0) (Q : ℕ → Type 0) (ds gaps : List ℕ)
    → ((g : ℕ) → Q g → P (record { pole = g; coefficient = at ds g }))
    → All Q gaps
    → All P (terms ds gaps)
terms_all P Q ds [] f h = tt
terms_all P Q ds (g ∷ gaps) f (q, h) = (f g q, terms_all P Q ds gaps f h)

terms-AreDistinct :
    {base n : ℕ} {cs gaps later : List ℕ} (ds : List ℕ)
    → Sweep base n cs gaps later
    → AreDistinct (terms ds gaps)
terms-AreDistinct ds (Sweep.swept base cs) = tt
terms-AreDistinct ds (Sweep.hit base n cs gaps later s) = terms-AreDistinct ds s
terms-AreDistinct ds (Sweep.skip base n cs gaps later s) = (
  terms_all (λ u. base ≢ u.pole) (λ g. (suc base ≤ g) × (g < suc base + n)) ds gaps
      (λ g h w. omega arith) (gap_bounds s),
  terms-AreDistinct ds s,
)

drop-at : (xs : List ℕ) (i : ℕ) → i < length xs → drop i xs ≡ at xs i ∷ drop (suc i) xs
drop-at [] i h = absurd (omega arith)
drop-at (x ∷ xs) zero h = refl
drop-at (x ∷ xs) (suc i) h = drop-at xs i (omega arith)

drop_end : (xs : List ℕ) (i : ℕ) → length xs ≤ i → drop i xs ≡ []
drop_end [] zero h = refl
drop_end [] (suc i) h = refl
drop_end (x ∷ xs) zero h = absurd (omega arith)
drop_end (x ∷ xs) (suc i) h = drop_end xs i (omega arith)

-- With zeros at the members of the list, a Cauchy row is the sum of fractions over the gaps.
dot-fractions :
    {base n : ℕ} {cs gaps later : List ℕ} (k x : ℕ) (row ds : List ℕ)
    → Sweep base n cs gaps later
    → base + n ≡ k
    → length ds ≡ k
    → IsCauchy k x row
    → All (λ c. c < k → at ds c ≡ 0) cs
    → dot (drop base row) (drop base ds) ≡ fractions x (terms ds gaps)
dot-fractions k x row ds (Sweep.swept base cs) e l c z =
    rw (drop_end row base (omega (arith, c.is_row.0))) refl
dot-fractions k x row ds (Sweep.hit base n cs gaps later s) e l c (z, zs) =
    rw
      (
        drop-at row base (omega (arith, c.is_row.0)),
        drop-at ds base (omega arith),
        z (omega arith),
        mul-zero (at row base),
        zero-xor (dot (drop (suc base) row) (drop (suc base) ds)),
      )
      (dot-fractions k x row ds s (omega arith) l c zs)
dot-fractions k x row ds (Sweep.skip base n cs gaps later s) e l c zs =
    rw
      (
        drop-at row base (omega (arith, c.is_row.0)),
        drop-at ds base (omega arith),
        c.entries base (omega arith),
        dot-fractions k x row ds s (omega arith) l c zs,
      )
      refl

-- Zeros at the members and at the gaps are zeros everywhere.
all_zero :
    {base n : ℕ} {cs gaps later : List ℕ} (ds : List ℕ)
    → Sweep base n cs gaps later
    → All (λ c. c < base + n → at ds c ≡ 0) cs
    → AreZero (terms ds gaps)
    → (j : ℕ) → base ≤ j
    → j < base + n
    → at ds j ≡ 0
all_zero ds (Sweep.swept base cs) z h j a b = absurd (omega arith)
all_zero ds (Sweep.hit base n cs gaps later s) (z, zs) h j a b = elim (equal_cases base j) [
  | inl e ↦ subst (λ (t : ℕ). at ds t ≡ 0) e (z (omega arith))
  | inr e ↦
      all_zero ds s (All-mono cs (λ c f l. f (omega arith)) zs) h j (omega arith) (omega arith)
]
all_zero ds (Sweep.skip base n cs gaps later s) zs (g, h) j a b = elim (equal_cases base j) [
  | inl e ↦ subst (λ (t : ℕ). at ds t ≡ 0) e g
  | inr e ↦
      all_zero ds s (All-mono cs (λ c f l. f (omega arith)) zs) h j (omega arith) (omega arith)
]

later-AreApart : (base : ℕ) (later : List ℕ) → Ascends base later → AreApart later
later-AreApart base [] a = tt
later-AreApart base (x ∷ later) (l, a) =
    (beyond x (suc x) later (omega arith) a, later-AreApart (suc x) later a)
  where
    beyond : (x b : ℕ) (later : List ℕ) → x < b → Ascends b later → All (λ w. w ≢ x) later
    beyond x b [] h a = tt
    beyond x b (w ∷ later) h (l, a) = ((λ e. omega arith), beyond x (suc w) later (omega arith) a)

later_ge : (base : ℕ) (later : List ℕ) → Ascends base later → All (λ x. base ≤ x) later
later_ge base [] a = tt
later_ge base (x ∷ later) (l, a) =
    (l, All-mono later (λ w h. omega arith) (later_ge (suc x) later a))

All-both :
    {A : Type 0} (P Q : A → Type 0) (xs : List A) → All P xs → All Q xs → All (λ x. P x × Q x) xs
All-both P Q [] h k = tt
All-both P Q (x ∷ xs) (p, h) (q, k) = ((p, q), All-both P Q xs h k)

-- A column of bytes that k different rows of an encoding matrix take to 0 is 0.
pub independent :
    (k m : ℕ) (matrix : List Row) (chosen ds : List ℕ)
    → IsCode k m matrix
    → Ascends 0 chosen
    → All (λ i. i < k + m) chosen
    → length chosen ≡ k
    → IsBytes ds
    → length ds ≡ k
    → All (λ i. dot (matrix_row matrix i) ds ≡ 0) chosen
    → (j : ℕ) → j < k
    → at ds j ≡ 0
independent k m matrix chosen ds code asc bounded width bytes size zeros j below =
    let (gaps, later, s, after) = Ascends-Sweep k 0 chosen asc in
    let later_from : Ascends k later =
      subst (λ (t : ℕ). Ascends t later) {x = 0 + k} {y = k} (omega arith) after in
    let at_chosen : All (λ c. c < k → at ds c ≡ 0) chosen =
      All-mono chosen
        (λ c h l.
          sym (dot-unit_row k c ds l size bytes)
          ∙ ap (λ (row : Row). dot row ds) (sym (code.top c l))
          ∙ h)
        zeros in
    let known =
      All-both (λ x. k ≤ x) (λ x. (x < k + m) × (dot (matrix_row matrix x) ds ≡ 0)) later
        (later_ge k later later_from)
        (later_all (λ x. (x < k + m) × (dot (matrix_row matrix x) ds ≡ 0)) s
          (All-both (λ i. i < k + m) (λ i. dot (matrix_row matrix i) ds ≡ 0) chosen bounded
            zeros)) in
    let vanish : Vanish (terms ds gaps) later =
      All-mono later
        (λ x (l, (b, z)).
          let bottom : IsCauchy k x (matrix_row matrix x) =
            subst (λ (t : ℕ). IsCauchy k t (matrix_row matrix t)) {x = k + (x - k)} {y = x}
              (omega arith) (code.bottom (x - k) (omega arith)) in
          (
            omega (arith, code.few),
            terms_all (IsFor x) (λ g. (0 ≤ g) × (g < 0 + k)) ds gaps
                (λ g h. record {
                  pole_byte = omega (arith, code.few);
                  coefficient_byte = at-IsByte ds g bytes;
                  apart = λ e. omega arith;
                })
                (gap_bounds s),
            sym (dot-fractions k x (matrix_row matrix x) ds s (omega arith) size bottom at_chosen)
                ∙ z,
          ))
        known in
    let none : AreZero (terms ds gaps) =
      Vanish-AreZero (terms ds gaps) later (omega (arith, length-terms ds gaps, length-gaps s))
        (terms-AreDistinct ds s) (later-AreApart k later later_from) vanish in
    all_zero ds s (All-mono chosen (λ c f l. f (omega arith)) at_chosen) none j (omega arith)
      (omega arith)
