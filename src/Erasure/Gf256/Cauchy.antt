-- ===== src/Erasure/Gf256/Cauchy.antt =====
-- Sums of fractions with distinct poles: such a sum that is 0 at as many points as it has terms has
-- only terms that are 0.
use Prim.Native.Nat.{bit_xor}
use ccn.Prelude.{ℕ, zero, suc, ◌<◌, ◌≡◌, ◌≢◌, refl, ap, sym, ◌∙◌, arith}
use ccn.Prelude.{Option, none, some}
use ccn.Erasure.Gf256.{mul, inv}
use ccn.Erasure.Gf256.Xor.{zero-xor, xor-zero, xor_assoc, xor_comm, xor_self, xor_swap, xor-lt}
use ccn.Erasure.Gf256.Laws.{
  mul-lt, mul_comm, mul-xor, mul_assoc, mul-zero, one-mul, inv-mul, mul-pos,
}

-- The inverse of a byte, 0 of 0.
abbrev pub recip_of : Option ℕ → ℕ
recip_of none = 0
recip_of (some b) = b

abbrev pub recip : ℕ → ℕ
recip a = recip_of (inv a)

pub recip-lt : (a : ℕ) → a < 256 → recip a < 256
recip-lt zero h = unfold inv in omega arith
recip-lt (suc a) h = let (b, e, l, _) = inv-mul a h in rw e l

pub mul-recip : (a : ℕ) → 0 < a → a < 256 → mul a (recip a) ≡ 1
mul-recip zero p h = absurd (omega arith)
mul-recip (suc a) p h = let (b, e, l, m) = inv-mul a h in rw e m

pub mul_zero_right : (a b : ℕ) → 0 < a → a < 256 → b < 256 → mul a b ≡ 0 → b ≡ 0
mul_zero_right zero b p h k e = absurd (omega arith)
mul_zero_right (suc a) zero p h k e = refl
mul_zero_right (suc a) (suc b) p h k e = absurd (omega (arith, mul-pos a b h k))

pub zero_mul : (a : ℕ) → mul 0 a ≡ 0
zero_mul a = mul_comm 0 a ∙ mul-zero a

pub mul_one : (a : ℕ) → a < 256 → mul a 1 ≡ a
mul_one a h = mul_comm a 1 ∙ one-mul a h

pub recip-pos : (a : ℕ) → 0 < a → a < 256 → 0 < recip a
recip-pos a p h = nonzero (recip a) (mul-recip a p h)
  where
    nonzero : (b : ℕ) → mul a b ≡ 1 → 0 < b
    nonzero zero e = absurd (omega (arith, mul-zero a))
    nonzero (suc b) e = omega arith

pub xor-mul :
    (a b c : ℕ) → a < 256 → b < 256 → c < 256 → mul (bit_xor a b) c ≡ bit_xor (mul a c) (mul b c)
xor-mul a b c p q r =
    mul_comm (bit_xor a b) c ∙ mul-xor c a b r p q ∙ rw (mul_comm c a, mul_comm c b) refl

pub mul_left_comm : (a b c : ℕ) → a < 256 → b < 256 → c < 256 → mul a (mul b c) ≡ mul b (mul a c)
mul_left_comm a b c p q r =
    sym (mul_assoc a b c p q r) ∙ ap (λ (t : ℕ). mul t c) (mul_comm a b) ∙ mul_assoc b a c q p r

-- Different bytes have a sum other than 0.
pub xor-pos : (a b : ℕ) → a ≢ b → 0 < bit_xor a b
xor-pos a b n = positive (bit_xor a b) refl
  where
    same : bit_xor a b ≡ 0 → a ≡ b
    same e =
        sym (xor-zero a)
        ∙ ap (bit_xor a) (sym (xor_self b))
        ∙ sym (xor_assoc a b b)
        ∙ ap (λ (t : ℕ). bit_xor t b) e
        ∙ zero-xor b

    positive : (c : ℕ) → c ≡ bit_xor a b → 0 < c
    positive zero e = absurd (n (same (sym e)))
    positive (suc c) e = omega arith

-- A sum goes over a third term.
xor_via : (a b c : ℕ) → bit_xor a b ≡ bit_xor (bit_xor a c) (bit_xor b c)
xor_via a b c =
    sym (xor-zero (bit_xor a b)) ∙ ap (bit_xor (bit_xor a b)) (sym (xor_self c)) ∙ xor_swap a b c c

cancel : (d p q : ℕ) → bit_xor (bit_xor d p) (bit_xor d q) ≡ bit_xor p q
cancel d p q =
    xor_swap d p d q ∙ ap (λ (t : ℕ). bit_xor t (bit_xor p q)) (xor_self d) ∙ zero-xor (bit_xor p q)

-- `(a + t) (d / a)` is `d + t (d / a)`.
split_term :
    (a t d : ℕ)
    → 0 < a
    → a < 256
    → t < 256
    → d < 256
    → mul (bit_xor a t) (mul (recip a) d) ≡ bit_xor d (mul t (mul (recip a) d))
split_term a t d p ha ht hd =
    let r : recip a < 256 = recip-lt a ha in
    xor-mul a t (mul (recip a) d) ha ht (mul-lt (recip a) d r hd)
    ∙ ap (λ (u : ℕ). bit_xor u (mul t (mul (recip a) d)))
        (sym (mul_assoc a (recip a) d ha r hd)
          ∙ ap (λ (u : ℕ). mul u d) (mul-recip a p ha)
          ∙ one-mul d hd)

-- `1 / a + 1 / b` is `(a + b) / (a b)`.
recip-sum :
    (a b : ℕ)
    → 0 < a
    → a < 256
    → 0 < b
    → b < 256
    → mul (bit_xor a b) (mul (recip a) (recip b)) ≡ bit_xor (recip a) (recip b)
recip-sum a b p ha q hb =
    let ra : recip a < 256 = recip-lt a ha in
    let rb : recip b < 256 = recip-lt b hb in
    xor-mul a b (mul (recip a) (recip b)) ha hb (mul-lt (recip a) (recip b) ra rb)
    ∙ rw
        (
          sym (mul_assoc a (recip a) (recip b) ha ra rb),
          mul-recip a p ha,
          one-mul (recip b) rb,
          mul_left_comm b (recip a) (recip b) hb ra rb,
          mul-recip b q hb,
          mul_one (recip a) ra,
        )
        (xor_comm (recip b) (recip a))

-- One term of the sum at two points, freed of the pole `z`.
pub term_free :
    (x w y z d : ℕ)
    → x < 256
    → w < 256
    → y < 256
    → z < 256
    → d < 256
    → x ≢ y
    → w ≢ y
    → bit_xor
        (mul (bit_xor x z) (mul (recip (bit_xor x y)) d))
        (mul (bit_xor w z) (mul (recip (bit_xor w y)) d))
      ≡ mul
          (bit_xor x w)
          (mul (recip (bit_xor x y)) (mul (bit_xor z y) (mul (recip (bit_xor w y)) d)))
term_free x w y z d hx hw hy hz hd nx nw =
    let a : ℕ = bit_xor x y in
    let b : ℕ = bit_xor w y in
    let t : ℕ = bit_xor z y in
    let s : ℕ = bit_xor x w in
    let ha : a < 256 = xor-lt 8 x y hx hy in
    let hb : b < 256 = xor-lt 8 w y hw hy in
    let ht : t < 256 = xor-lt 8 z y hz hy in
    let hs : s < 256 = xor-lt 8 x w hx hw in
    let ra : recip a < 256 = recip-lt a ha in
    let rb : recip b < 256 = recip-lt b hb in
    let first : mul (bit_xor x z) (mul (recip a) d) ≡ bit_xor d (mul t (mul (recip a) d)) =
      ap (λ (u : ℕ). mul u (mul (recip a) d)) (xor_via x z y)
      ∙ split_term a t d (xor-pos x y nx) ha ht hd in
    let second : mul (bit_xor w z) (mul (recip b) d) ≡ bit_xor d (mul t (mul (recip b) d)) =
      ap (λ (u : ℕ). mul u (mul (recip b) d)) (xor_via w z y)
      ∙ split_term b t d (xor-pos w y nw) hb ht hd in
    let joined : bit_xor (mul (recip a) d) (mul (recip b) d)
        ≡ mul s (mul (recip a) (mul (recip b) d)) =
      sym (xor-mul (recip a) (recip b) d ra rb hd)
      ∙ ap (λ (u : ℕ). mul u d)
          (sym (recip-sum a b (xor-pos x y nx) ha (xor-pos w y nw) hb)
            ∙ ap (λ (u : ℕ). mul u (mul (recip a) (recip b))) (sym (xor_via x w y)))
      ∙ mul_assoc s (mul (recip a) (recip b)) d hs (mul-lt (recip a) (recip b) ra rb) hd
      ∙ ap (mul s) (mul_assoc (recip a) (recip b) d ra rb hd) in
    let hrd : mul (recip b) d < 256 = mul-lt (recip b) d rb hd in
    rw (first, second)
      (cancel d (mul t (mul (recip a) d)) (mul t (mul (recip b) d))
        ∙ sym (mul-xor t (mul (recip a) d) (mul (recip b) d) ht (mul-lt (recip a) d ra hd) hrd)
        ∙ ap (mul t) joined
        ∙ mul_left_comm t s (mul (recip a) (mul (recip b) d)) ht hs
            (mul-lt (recip a) (mul (recip b) d) ra hrd)
        ∙ ap (mul s) (mul_left_comm t (recip a) (mul (recip b) d) ht ra hrd))
