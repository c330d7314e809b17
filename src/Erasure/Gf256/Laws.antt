-- ===== src/Erasure/Gf256/Laws.antt =====
-- The laws of a field: multiplication by a byte is repeated doubling, which is linear.
use Prim.Native.Nat.{bit_xor}
use ccn.Prelude.{ℕ, zero, suc, ◌+◌, ◌-◌, ◌%◌, ◌≤◌, ◌<◌, ◌≡◌, refl, ap, sym, ◌∙◌, arith}
use ccn.Prelude.{none, some, ◌⊎◌, inl, inr}
use ccn.Erasure.Gf256.{exp_at, log_at, double, mul, div, inv, add}
use ccn.Erasure.Gf256.Xor.{xor-lt, xor_comm, xor_assoc, xor-zero, xor_self}
use ccn.Erasure.Gf256.Tables.{
  powers, exp-step, logs, double-xor, double-lt, exp_zero, log_one, double_zero,
}

abbrev doublings : ℕ → ℕ → ℕ
doublings zero b = b
doublings (suc n) b = double (doublings n b)

doublings-add : (n m b : ℕ) → doublings n (doublings m b) ≡ doublings (n + m) b
doublings-add zero m b = let e : 0 + m ≡ m = omega arith in rw e refl
doublings-add (suc n) m b =
    let e : suc n + m ≡ suc (n + m) = omega arith in rw e (ap double (doublings-add n m b))

doublings-lt : (n b : ℕ) → b < 256 → doublings n b < 256
doublings-lt zero b h = h
doublings-lt (suc n) b h = double-lt _ (doublings-lt n b h)

doublings_zero : (n : ℕ) → doublings n 0 ≡ 0
doublings_zero zero = refl
doublings_zero (suc n) = ap double (doublings_zero n) ∙ double_zero

doublings-xor :
    (n b c : ℕ)
    → b < 256
    → c < 256
    → doublings n (bit_xor b c) ≡ bit_xor (doublings n b) (doublings n c)
doublings-xor zero b c p q = refl
doublings-xor (suc n) b c p q =
    ap double (doublings-xor n b c p q) ∙ double-xor _ _ (doublings-lt n b p) (doublings-lt n c q)

-- The table of powers goes on by doubling.
exp-add : (n j : ℕ) → n + j ≤ 509 → exp_at (n + j) ≡ doublings n (exp_at j)
exp-add zero j h = let e : 0 + j ≡ j = omega arith in rw e refl
exp-add (suc n) j h =
    let e : suc n + j ≡ suc (n + j) = omega arith in
    rw e (exp-step (n + j) (omega arith) ∙ ap double (exp-add n j (omega arith)))

abbrev log_lem : (b : ℕ) → suc b < 256 → (exp_at (log_at (suc b)) ≡ suc b) × (log_at (suc b) < 255)
log_lem b h = logs b (omega arith)

-- Multiplication by a byte other than 0 is as many doublings as its logarithm says.
mul-doublings : (a b : ℕ) → suc a < 256 → b < 256 → mul (suc a) b ≡ doublings (log_at (suc a)) b
unfolding mul
mul-doublings a zero p q = sym (doublings_zero _)
mul-doublings a (suc b) p q =
    let (e, l) = log_lem a p in
    let (f, m) = log_lem b q in
    exp-add (log_at (suc a)) (log_at (suc b)) (omega arith) ∙ ap (doublings (log_at (suc a))) f

mul_nonzero-doublings : (x b : ℕ) → 0 < x → x < 256 → b < 256 → mul x b ≡ doublings (log_at x) b
mul_nonzero-doublings zero b h p q = absurd (omega arith)
mul_nonzero-doublings (suc x) b h p q = mul-doublings x b p q

doublings_cycle : (b : ℕ) → b < 256 → doublings 255 b ≡ b
doublings_cycle zero h = doublings_zero 255
doublings_cycle (suc b) h =
    let (e, l) = log_lem b h in
    ap (doublings 255) (sym e)
    ∙ sym (exp-add 255 (log_at (suc b)) (omega arith))
    ∙ (powers (log_at (suc b)) l).3
    ∙ e

below_cases : (n : ℕ) → (n < 255) ⊎ (255 ≤ n)
below_cases n = ground arith

wrapped : (m : ℕ) → m < 255 → 255 + m ≡ 255 + log_at (exp_at (255 + m))
wrapped m h = let (e, p, q, f) = powers m h in rw (f, e) refl

-- A sum of two logarithms, brought below 255.
log-exp : (n : ℕ) → n < 510 → (log_at (exp_at n) ≡ n) ⊎ (n ≡ 255 + log_at (exp_at n))
log-exp n h = elim (below_cases n) [
  | inl l ↦ inl (powers n l).0
  | inr g ↦
      let e : 255 + (n - 255) ≡ n = omega arith in inr (rw e at (wrapped (n - 255) (omega arith)))
]

doublings-log-exp : (n b : ℕ) → n < 510 → b < 256 → doublings (log_at (exp_at n)) b ≡ doublings n b
doublings-log-exp n b h p = elim (log-exp n h) [
  | inl e ↦ rw e refl
  | inr e ↦ sym (
      ap (λ (m : ℕ). doublings m b) e
      ∙ sym (doublings-add 255 (log_at (exp_at n)) b)
      ∙ doublings_cycle _ (doublings-lt _ b p))
]

exp-pos : (n : ℕ) → n < 510 → 0 < exp_at n
exp-pos n h = elim (below_cases n) [
  | inl l ↦ (powers n l).1
  | inr g ↦
      let e : 255 + (n - 255) ≡ n = omega arith in
      let (a, p, q, f) = powers (n - 255) (omega arith) in
      let w : 0 < exp_at (255 + (n - 255)) = rw f p in rw e at w
]

mul-exp : (a b : ℕ) → mul (suc a) (suc b) ≡ exp_at (log_at (suc a) + log_at (suc b))
unfolding mul
mul-exp a b = refl

-- A field has no divisors of 0.
pub mul-pos : (a b : ℕ) → suc a < 256 → suc b < 256 → 0 < mul (suc a) (suc b)
unfolding mul
mul-pos a b p q =
    exp-pos (log_at (suc a) + log_at (suc b)) (omega (arith, log_lem a p, log_lem b q))

-- A product of bytes is a byte.
pub mul-lt : (a b : ℕ) → a < 256 → b < 256 → mul a b < 256
mul-lt zero b p q = unfold mul in omega arith
mul-lt (suc a) b p q = rw (mul-doublings a b p q) (doublings-lt _ b q)

pub mul_comm : (a b : ℕ) → mul a b ≡ mul b a
unfolding mul
mul_comm zero zero = refl
mul_comm zero (suc b) = refl
mul_comm (suc a) zero = refl
mul_comm (suc a) (suc b) = ap exp_at {x = log_at (suc a) + log_at (suc b)} (omega arith)

-- Multiplication distributes over the sum of bytes.
pub mul-xor :
    (a b c : ℕ) → a < 256 → b < 256 → c < 256 → mul a (bit_xor b c) ≡ bit_xor (mul a b) (mul a c)
mul-xor zero b c p q r = unfold mul in refl
mul-xor (suc a) b c p q r =
    rw
      (
        mul-doublings a (bit_xor b c) p (xor-lt 8 b c q r),
        mul-doublings a b p q,
        mul-doublings a c p r,
      )
      (doublings-xor (log_at (suc a)) b c q r)

pub mul_assoc : (a b c : ℕ) → a < 256 → b < 256 → c < 256 → mul (mul a b) c ≡ mul a (mul b c)
mul_assoc zero b c p q r = unfold mul in refl
mul_assoc (suc a) zero c p q r = unfold mul in refl
mul_assoc (suc a) (suc b) c p q r =
    let n : ℕ = log_at (suc a) + log_at (suc b) in
    let bound : n < 510 = omega (arith, log_lem a p, log_lem b q) in
    let product : mul (mul (suc a) (suc b)) c ≡ doublings (log_at (exp_at n)) c =
      mul_nonzero-doublings (mul (suc a) (suc b)) c (mul-pos a b p q) (mul-lt (suc a) (suc b) p q) r
      ∙ ap (λ (x : ℕ). doublings (log_at x) c) (mul-exp a b) in
    product
    ∙ doublings-log-exp n c bound r
    ∙ sym (doublings-add (log_at (suc a)) (log_at (suc b)) c)
    ∙ ap (doublings (log_at (suc a))) (sym (mul-doublings b c q r))
    ∙ sym (mul-doublings a (mul (suc b) c) p (mul-lt (suc b) c q r))

pub one-mul : (b : ℕ) → b < 256 → mul 1 b ≡ b
one-mul b p = mul-doublings 0 b (omega arith) p ∙ ap (λ (n : ℕ). doublings n b) log_one

pub mul-zero : (a : ℕ) → mul a 0 ≡ 0
unfolding mul
mul-zero zero = refl
mul-zero (suc a) = refl

exp_cycle : exp_at 255 ≡ 1
exp_cycle = (powers 0 (omega arith)).3 ∙ exp_zero

-- `inv` finds what a byte other than 0 is to be multiplied with to give 1.
pub inv-mul :
    (a : ℕ) → suc a < 256 → (b : ℕ) × (inv (suc a) ≡ some b) × (b < 256) × (mul (suc a) b ≡ 1)
unfolding inv
inv-mul a p = elim (cases (log_at (suc a)) (log_lem a p).1) [
  | inl z ↦ (
    exp_at (255 - log_at (suc a)),
    refl,
    rw z (rw exp_cycle (omega arith)),
    rw z (rw exp_cycle (product 1 (omega arith) (rw (z, log_one) exp_zero))),
  )
  | inr (l, g) ↦
      let (e, pos, lt, f) = powers (255 - log_at (suc a)) (omega arith) in
      let s : log_at (suc a) + (255 - log_at (suc a)) ≡ 255 = omega arith in
      (exp_at (255 - log_at (suc a)), refl, lt, product _ pos (rw (e, s) exp_cycle))
]
  where
    cases : (n : ℕ) → n < 255 → (n ≡ 0) ⊎ ((0 < n) × (n < 255))
    cases n h = ground arith

    product : (b : ℕ) → 0 < b → exp_at (log_at (suc a) + log_at b) ≡ 1 → mul (suc a) b ≡ 1
    product zero h e = absurd (omega arith)
    product (suc b) h e = mul-exp a b ∙ e

quotient_cases :
    (l d : ℕ)
    → l < 255
    → d < 255
    → (d + (l + 255 - d) % 255 ≡ l) ⊎ (d + (l + 255 - d) % 255 ≡ 255 + l)
quotient_cases l d p q = ground arith

quotient-exp :
    (a b r : ℕ)
    → suc a < 256
    → suc b < 256
    → r < 255
    → (log_at (suc b) + r ≡ log_at (suc a)) ⊎ (log_at (suc b) + r ≡ 255 + log_at (suc a))
    → exp_at (log_at (suc b) + log_at (exp_at r)) ≡ suc a
quotient-exp a b r p q l (inl e) = rw ((powers r l).0, e) (log_lem a p).0
quotient-exp a b r p q l (inr e) =
    rw ((powers r l).0, e, (powers (log_at (suc a)) (log_lem a p).1).3) (log_lem a p).0

-- `div` finds the byte that the divisor is to be multiplied with.
div-mul :
    (a b : ℕ)
    → a < 256
    → suc b < 256
    → (q : ℕ) × (div a (suc b) ≡ some q) × (q < 256) × (mul (suc b) q ≡ a)
unfolding div
div-mul zero b p q = (0, refl, omega arith, mul-zero (suc b))
div-mul (suc a) b p q =
    let r : ℕ = (log_at (suc a) + 255 - log_at (suc b)) % 255 in
    let l : r < 255 = omega arith in
    let (e, pos, lt, _) = powers r l in
    (
      exp_at r,
      refl,
      lt,
      product (exp_at r) pos (
          quotient-exp a b r p q l
            (quotient_cases (log_at (suc a)) (log_at (suc b)) (log_lem a p).1 (log_lem b q).1)),
    )
  where
    product : (x : ℕ) → 0 < x → exp_at (log_at (suc b) + log_at x) ≡ suc a → mul (suc b) x ≡ suc a
    product zero h e = absurd (omega arith)
    product (suc x) h e = mul-exp b x ∙ e

-- The laws of a field on bytes, `^` its addition.
pub record IsField : Type 0 where
  pub closed : (a b : ℕ) → a < 256 → b < 256 → (mul a b < 256) × (add a b < 256)
  pub sum_comm : (a b : ℕ) → add a b ≡ add b a
  pub sum_assoc : (a b c : ℕ) → add (add a b) c ≡ add a (add b c)
  pub sum_zero : (a : ℕ) → add a 0 ≡ a
  pub negative : (a : ℕ) → add a a ≡ 0
  pub product_comm : (a b : ℕ) → mul a b ≡ mul b a
  pub product_assoc : (a b c : ℕ) → a < 256 → b < 256 → c < 256 → mul (mul a b) c ≡ mul a (mul b c)
  pub product_one : (a : ℕ) → a < 256 → mul 1 a ≡ a
  pub distributive :
      (a b c : ℕ) → a < 256 → b < 256 → c < 256 → mul a (add b c) ≡ add (mul a b) (mul a c)
  pub inverse : (a : ℕ) → 0 < a → a < 256 → (b : ℕ) × (inv a ≡ some b) × (b < 256) × (mul a b ≡ 1)
  pub quotient :
      (a b : ℕ)
      → a < 256
      → 0 < b
      → b < 256
      → (q : ℕ) × (div a b ≡ some q) × (q < 256) × (mul b q ≡ a)
  pub no_inverse : (a : ℕ) → (inv 0 ≡ none) × (div a 0 ≡ none)

-- With the tables that buildTables fills, add and mul make a field of the bytes: sums and products
-- of bytes are bytes, both are commutative and associative, mul distributes over add, every byte is
-- its own negative, inv finds the inverse and div the quotient, and both throw for 0 and only then.
pub bytes-IsField : IsField
unfolding add
bytes-IsField = record {
  closed = λ a b p q. (mul-lt a b p q, xor-lt 8 a b p q);
  sum_comm = xor_comm;
  sum_assoc = xor_assoc;
  sum_zero = xor-zero;
  negative = xor_self;
  product_comm = mul_comm;
  product_assoc = mul_assoc;
  product_one = one-mul;
  distributive = mul-xor;
  inverse = positive_inverse;
  quotient = positive_quotient;
  no_inverse = no_quotient;
}
  where
    positive_inverse :
        (a : ℕ) → 0 < a → a < 256 → (b : ℕ) × (inv a ≡ some b) × (b < 256) × (mul a b ≡ 1)
    positive_inverse zero p h = absurd (omega arith)
    positive_inverse (suc a) p h = inv-mul a h

    positive_quotient :
        (a b : ℕ)
        → a < 256
        → 0 < b
        → b < 256
        → (q : ℕ) × (div a b ≡ some q) × (q < 256) × (mul b q ≡ a)
    positive_quotient a zero h p k = absurd (omega arith)
    positive_quotient a (suc b) h p k = div-mul a b h k

    no_quotient : (a : ℕ) → (inv 0 ≡ none) × (div a 0 ≡ none)
    no_quotient a = unfold inv in unfold div in (refl, refl)
