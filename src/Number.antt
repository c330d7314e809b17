-- ===== src/Number.antt =====
-- The numbers of JavaScript where the code uses fractions: times, congestion windows, bit rates.
-- The type and its operations are a parameter; `Laws` is what a theorem on bounds assumes of them,
-- on the values that are not NaN.
pub mod Thousandths
use ccn.Prelude.{ℕ, ◌≤◌, ◌≡◌, Bool, true, false}

pub record Number : Type 1 where
  pub Num : Type 0
  pub of_nat : ℕ → Num
  pub plus : Num → Num → Num
  pub minus : Num → Num → Num
  pub times : Num → Num → Num
  pub over : Num → Num → Num
  pub floor : Num → Num
  pub absolute : Num → Num
  pub lower : Num → Num → Num
  pub upper : Num → Num → Num
  pub lt : Num → Num → Bool
  pub le : Num → Num → Bool
  pub eq : Num → Num → Bool

-- `Math.min` and `Math.max` on an order that is total.
pub record Laws (N : Number) : Type 0 where
  pub le-refl : (a : N.Num) → N.le a a ≡ true
  pub le-trans : (a b c : N.Num) → N.le a b ≡ true → N.le b c ≡ true → N.le a c ≡ true
  pub lt-not_le : (a b : N.Num) → N.lt a b ≡ true → N.le b a ≡ false
  pub lt-le : (a b : N.Num) → N.lt a b ≡ true → N.le a b ≡ true
  pub not_lt-le : (a b : N.Num) → N.lt a b ≡ false → N.le b a ≡ true
  pub lower-left : (a b : N.Num) → N.le (N.lower a b) a ≡ true
  pub lower-right : (a b : N.Num) → N.le (N.lower a b) b ≡ true
  pub lower-glb : (a b c : N.Num) → N.le c a ≡ true → N.le c b ≡ true → N.le c (N.lower a b) ≡ true
  pub upper-left : (a b : N.Num) → N.le a (N.upper a b) ≡ true
  pub upper-right : (a b : N.Num) → N.le b (N.upper a b) ≡ true
  pub upper-lub : (a b c : N.Num) → N.le a c ≡ true → N.le b c ≡ true → N.le (N.upper a b) c ≡ true
  pub of_nat-le : (a b : ℕ) → a ≤ b → N.le (N.of_nat a) (N.of_nat b) ≡ true
  pub le-plus : (a b : N.Num) → N.le (N.of_nat 0) b ≡ true → N.le a (N.plus a b) ≡ true
  pub le-double : (a : N.Num) → N.le (N.of_nat 0) a ≡ true → N.le a (N.times a (N.of_nat 2)) ≡ true
  pub over-nonneg :
      (a b : N.Num)
      → N.le (N.of_nat 0) a ≡ true
      → N.le (N.of_nat 1) b ≡ true
      → N.le (N.of_nat 0) (N.over a b) ≡ true
  pub floor-int :
      (a : N.Num) (n : ℕ) → N.le (N.of_nat n) a ≡ true → N.le (N.of_nat n) (N.floor a) ≡ true
  pub floor-le : (a : N.Num) → N.le (N.floor a) a ≡ true
