-- ===== src/Erasure/Gf256/Xor.antt =====
-- `^` on numbers: its laws, from one equation for the lowest digit.
use Prim.Native.Nat.{bit_xor, digits, differ, bit_xor-bitwise}
use ccn.Prelude.{
  ℕ, zero, suc, ◌+◌, ◌*◌, ◌/◌, ◌%◌, ◌^◌, ◌≤◌, ◌<◌, ◌≡◌, refl, ap, sym, ◌∙◌, ◌-◌, arith,
}
use ccn.Prelude.{◌⊎◌, inl, inr}
use native.Mathlib.Nat.{pow-suc}

-- The sum of `a` and `b` digit by digit, at most `fuel` digits of `a`.
abbrev summed : ℕ → ℕ → ℕ → ℕ
summed b a fuel = digits (λ y. y) differ fuel a b

-- One digit more changes nothing once there are enough.
summed-suc : (fuel b a : ℕ) → a ≤ fuel → summed b a (suc fuel) ≡ summed b a fuel
summed-suc zero b a h = let none : a ≡ 0 = omega arith in rw none refl
summed-suc (suc fuel) b zero h = refl
summed-suc (suc fuel) b (suc a) h =
    ap (λ (t : ℕ). t * 2 + differ (suc a % 2) (b % 2))
      (summed-suc fuel (b / 2) (suc a / 2) (omega arith))

summed-enough : (extra fuel b a : ℕ) → a ≤ fuel → summed b a (extra + fuel) ≡ summed b a fuel
summed-enough zero fuel b a h = let same : 0 + fuel ≡ fuel = omega arith in rw same refl
summed-enough (suc extra) fuel b a h =
    let next : suc extra + fuel ≡ suc (extra + fuel) = omega arith in
    rw next (summed-suc (extra + fuel) b a (omega arith) ∙ summed-enough extra fuel b a h)

pub zero-xor : (b : ℕ) → bit_xor 0 b ≡ b
zero-xor b = bit_xor-bitwise 0 b

digit_cases : (a : ℕ) → (a % 2 ≡ 0) ⊎ (a % 2 ≡ 1)
digit_cases a = ground arith

differ-digits : (a b : ℕ) → differ (a % 2) (b % 2) ≡ (a + b) % 2
differ-digits a b = elim (digit_cases a) [
  | inl e ↦ rw e (omega arith)
  | inr e ↦ elim (digit_cases b) [
    | inl f ↦ rw (e, f) (omega arith)
    | inr f ↦ rw (e, f) (omega arith)
  ]
]

summed_half : (a b : ℕ) → summed b (suc a / 2) a ≡ bit_xor (suc a / 2) b
summed_half a b =
    let split : (a - suc a / 2) + suc a / 2 ≡ a = omega arith in
    ap (summed b (suc a / 2)) (sym split)
    ∙ summed-enough (a - suc a / 2) (suc a / 2) b (suc a / 2) (omega arith)
    ∙ sym (bit_xor-bitwise (suc a / 2) b)

pub xor_step : (x y : ℕ) → bit_xor x y ≡ bit_xor (x / 2) (y / 2) * 2 + (x + y) % 2
xor_step zero y = omega (arith, zero-xor y, zero-xor (y / 2))
xor_step (suc x) y =
    omega (arith, bit_xor-bitwise (suc x) y, differ-digits (suc x) y, summed_half x (y / 2))

comm_fuel : (n a b : ℕ) → a ≤ n → b ≤ n → bit_xor a b ≡ bit_xor b a
comm_fuel zero a b p q = let e : a ≡ b = omega arith in rw e
comm_fuel (suc n) zero zero p q = refl
comm_fuel (suc n) zero (suc b) p q = omega (
  arith,
  xor_step zero (suc b),
  xor_step (suc b) zero,
  comm_fuel n 0 (suc b / 2) (omega arith) (omega arith),
)
comm_fuel (suc n) (suc a) b p q = omega (
  arith,
  xor_step (suc a) b,
  xor_step b (suc a),
  comm_fuel n (suc a / 2) (b / 2) (omega arith) (omega arith),
)

pub xor_comm : (a b : ℕ) → bit_xor a b ≡ bit_xor b a
xor_comm a b = comm_fuel (a + b) a b (omega arith) (omega arith)

assoc_fuel :
    (n a b c : ℕ) → a ≤ n → b ≤ n → c ≤ n → bit_xor (bit_xor a b) c ≡ bit_xor a (bit_xor b c)
assoc_fuel zero a b c p q r =
    let e : a ≡ 0 = omega arith in
    let f : b ≡ 0 = omega arith in let g : c ≡ 0 = omega arith in rw (e, f, g)
assoc_fuel (suc n) a b c p q r =
    let left : bit_xor a b / 2 ≡ bit_xor (a / 2) (b / 2) = omega (arith, xor_step a b) in
    let right : bit_xor b c / 2 ≡ bit_xor (b / 2) (c / 2) = omega (arith, xor_step b c) in
    let halves : bit_xor (bit_xor a b / 2) (c / 2) ≡ bit_xor (a / 2) (bit_xor b c / 2) =
      rw (left, right)
        (assoc_fuel n (a / 2) (b / 2) (c / 2) (omega arith) (omega arith) (omega arith)) in
    omega (
      arith,
      xor_step (bit_xor a b) c,
      xor_step a b,
      xor_step a (bit_xor b c),
      xor_step b c,
      halves,
    )

pub xor_assoc : (a b c : ℕ) → bit_xor (bit_xor a b) c ≡ bit_xor a (bit_xor b c)
xor_assoc a b c = assoc_fuel (a + b + c) a b c (omega arith) (omega arith) (omega arith)

self_fuel : (n a : ℕ) → a ≤ n → bit_xor a a ≡ 0
self_fuel n zero p = refl
self_fuel zero (suc a) p = absurd (omega arith)
self_fuel (suc n) (suc a) p =
    omega (arith, xor_step (suc a) (suc a), self_fuel n (suc a / 2) (omega arith))

pub xor_self : (a : ℕ) → bit_xor a a ≡ 0
xor_self a = self_fuel a a (omega arith)

pub xor-zero : (a : ℕ) → bit_xor a 0 ≡ a
xor-zero a = rw (xor_comm a 0) (zero-xor a)

pub xor-lt : (k a b : ℕ) → a < 2 ^ k → b < 2 ^ k → bit_xor a b < 2 ^ k
xor-lt zero a b p q =
    let e : a ≡ 0 = omega arith in let f : b ≡ 0 = omega arith in rw (e, f) (omega arith)
xor-lt (suc k) a b p q = omega (
  arith,
  pow-suc 2 k,
  xor_step a b,
  xor-lt k (a / 2) (b / 2) (omega (arith, pow-suc 2 k)) (omega (arith, pow-suc 2 k)),
)

pub xor_double : (a b : ℕ) → bit_xor (a * 2) (b * 2) ≡ bit_xor a b * 2
xor_double a b =
    let e : a * 2 / 2 ≡ a = omega arith in
    let f : b * 2 / 2 ≡ b = omega arith in
    let g : bit_xor (a * 2 / 2) (b * 2 / 2) ≡ bit_xor a b = rw (e, f) refl in
    omega (arith, xor_step (a * 2) (b * 2), g)

-- The four in a sum of two sums change places.
pub xor_swap :
    (a b c d : ℕ) → bit_xor (bit_xor a b) (bit_xor c d) ≡ bit_xor (bit_xor a c) (bit_xor b d)
xor_swap a b c d = cc (
  xor_assoc a b (bit_xor c d),
  xor_assoc b c d,
  xor_comm b c,
  xor_assoc c b d,
  xor_assoc a c (bit_xor b d),
)
