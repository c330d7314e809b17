-- ===== src/Erasure/Gf256/Tables.antt =====
-- What the tables hold, by evaluation over the bytes.
use Prim.Native.Nat.{bit_xor}
use ccn.Prelude.{ℕ, zero, suc, ◌+◌, ◌<◌, ◌≡◌, refl, arith}
use ccn.Prelude.{Bool, true, false, ◌&&◌, eqb, eqb_iff, ltb, Bool-cases, inl, inr, if◌then◌else◌}
use ccn.Erasure.Gf256.{at, double, fill, mirror_exp, LogExp, build_tables, exp_at, log_at}

-- A test that holds of every number below a bound, largest first.
abbrev holds_below : (ℕ → Bool) → ℕ → Bool
holds_below test zero = true
holds_below test (suc bound) = if test bound then holds_below test bound else false

holds : (test : ℕ → Bool) (bound i : ℕ) → i < bound → holds_below test bound ≡ true → test i ≡ true
holds test zero i l h = absurd (omega arith)
holds test (suc bound) i l h = elim (Bool-cases (test bound)) [
  | inr e ↦ absurd (cc)
  | inl e ↦ elim (Bool-cases (eqb i bound)) [
    | inl same ↦ rw ((eqb_iff i bound).0 same) e
    | inr other ↦ holds test bound i (ground (arith, eqb_iff i bound)) (rw e at h)
  ]
]

abbrev powers_hold : LogExp → ℕ → Bool
powers_hold t i =
    let x = at t.exp i in eqb (at t.log x) i && ltb 0 x && ltb x 256 && eqb (at t.exp (255 + i)) x

abbrev step_holds : ℕ → Bool
step_holds i = eqb (exp_at (suc i)) (double (exp_at i))

abbrev log_holds : ℕ → Bool
log_holds x = eqb (exp_at (log_at (suc x))) (suc x) && ltb (log_at (suc x)) 255

abbrev doubles_hold : ℕ → ℕ → Bool
doubles_hold a b = eqb (double (bit_xor a b)) (bit_xor (double a) (double b))

abbrev byte_holds : ℕ → Bool
byte_holds a = ltb (double a) 256

powers_table : holds_below (powers_hold build_tables) 255 ≡ true
unfolding build_tables fill mirror_exp double
powers_table = refl

steps_table : holds_below step_holds 509 ≡ true
unfolding exp_at build_tables fill mirror_exp double
steps_table = refl

logs_table : holds_below log_holds 255 ≡ true
unfolding exp_at log_at build_tables fill mirror_exp double
logs_table = refl

doubles_table : holds_below (λ a. holds_below (doubles_hold a) 256) 256 ≡ true
unfolding double
doubles_table = refl

bytes_table : holds_below byte_holds 256 ≡ true
unfolding double
bytes_table = refl

-- Below 255 the powers are bytes other than 0, the logarithm undoes them, and 255 more is the same.
pub powers :
    (i : ℕ)
    → i < 255
    → (log_at (exp_at i) ≡ i) × (0 < exp_at i) × (exp_at i < 256) × (exp_at (255 + i) ≡ exp_at i)
unfolding exp_at log_at
powers i h = ground (arith, holds (powers_hold build_tables) 255 i h powers_table)

pub exp-step : (i : ℕ) → i < 509 → exp_at (suc i) ≡ double (exp_at i)
exp-step i h = (eqb_iff _ _).0 (holds step_holds 509 i h steps_table)

pub logs : (x : ℕ) → x < 255 → (exp_at (log_at (suc x)) ≡ suc x) × (log_at (suc x) < 255)
logs x h = ground (arith, holds log_holds 255 x h logs_table)

pub double-xor :
    (a b : ℕ) → a < 256 → b < 256 → double (bit_xor a b) ≡ bit_xor (double a) (double b)
double-xor a b p q = (eqb_iff _ _).0 (
    holds (doubles_hold a) 256 b q
      (holds (λ a. holds_below (doubles_hold a) 256) 256 a p doubles_table))

pub double-lt : (a : ℕ) → a < 256 → double a < 256
double-lt a p = ground (arith, holds byte_holds 256 a p bytes_table)

pub exp_zero : exp_at 0 ≡ 1
unfolding exp_at build_tables fill mirror_exp double
exp_zero = refl

pub log_one : log_at 1 ≡ 0
unfolding log_at build_tables fill mirror_exp double
log_one = refl

pub double_zero : double 0 ≡ 0
unfolding double
double_zero = refl
