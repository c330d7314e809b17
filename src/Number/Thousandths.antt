-- ===== src/Number/Thousandths.antt =====
-- Numbers of thousandths from zero up: a value of the interface at which its laws hold. Fractions
-- below a thousandth are cut off, and a difference below zero is zero.
use ccn.Prelude.{ℕ, ◌+◌, ◌-◌, ◌*◌, ◌/◌, min, max, ltb, leb, eqb, arith}
use ccn.Number.{Number, Laws}

abbrev pub thousandths : Number
thousandths = record {
  Num = ℕ;
  of_nat = λ n. n * 1000;
  plus = λ a b. a + b;
  minus = λ a b. a - b;
  times = λ a b. a * b / 1000;
  over = λ a b. a * 1000 / b;
  floor = λ a. a / 1000 * 1000;
  absolute = λ a. a;
  lower = min;
  upper = max;
  lt = ltb;
  le = leb;
  eq = eqb;
}

pub thousandths-Laws : Laws thousandths
thousandths-Laws = record {
  le-refl = λ a. ground arith;
  le-trans = λ a b c h k. ground arith;
  lt-not_le = λ a b h. ground arith;
  lt-le = λ a b h. ground arith;
  not_lt-le = λ a b h. ground arith;
  lower-left = λ a b. ground arith;
  lower-right = λ a b. ground arith;
  lower-glb = λ a b c h k. ground arith;
  upper-left = λ a b. ground arith;
  upper-right = λ a b. ground arith;
  upper-lub = λ a b c h k. ground arith;
  of_nat-le = λ a b h. ground arith;
  le-plus = λ a b h. ground arith;
  le-double = λ a h. ground arith;
  over-nonneg = λ a b h k. ground arith;
  floor-int = λ a n h. ground arith;
  floor-le = λ a. ground arith;
}
