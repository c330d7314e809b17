-- ===== src/Erasure/Gf256.antt =====
-- frontend/src/lib/erasure/gf256.ts: bytes as the field of 256 elements, by tables. A `throw` is
-- `none`. A table that is read past its end gives 0; the indices of bytes stay inside.
pub mod Xor
pub mod Tables
pub mod Laws
pub mod Cauchy
pub mod Poles
use Prim.Native.Nat.{bit_and, bit_xor}
use ccn.Prelude.{ℕ, zero, suc, ◌+◌, ◌-◌, ◌*◌, ◌%◌, ◌^◌, Bool, true, false, Option, none, some}
use ccn.Prelude.{List, [], ◌∷◌, length, replicate, get_elem?, eqb, if◌then◌else◌}

abbrev pub at : List ℕ → ℕ → ℕ
at [] i = 0
at (x ∷ xs) zero = x
at (x ∷ xs) (suc i) = at xs i

abbrev pub store {ℓ} : {A : Type ℓ} → List A → ℕ → A → List A
store [] i v = []
store (x ∷ xs) zero v = v ∷ xs
store (x ∷ xs) (suc i) v = x ∷ store xs i v

pub record LogExp : Type 0 where
  pub exp : List ℕ
  pub log : List ℕ

-- `x <<= 1; if (x & 0x100) x ^= PRIMITIVE;`
unfoldable pub double : ℕ → ℕ
double x = let y = x * 2 in if eqb (bit_and y 0x100) 0 then y else bit_xor y 0x11d

unfoldable pub fill : ℕ → ℕ → ℕ → LogExp → LogExp
fill zero i x t = t
fill (suc n) i x t =
    fill n (suc i) (double x) (record { exp = store t.exp i x; log = store t.log x i })

unfoldable pub mirror_exp : ℕ → ℕ → List ℕ → List ℕ
mirror_exp zero i e = e
mirror_exp (suc n) i e = mirror_exp n (suc i) (store e i (at e (i - 255)))

unfoldable pub build_tables : LogExp
build_tables =
    let t = fill 255 0 1 (record { exp = replicate 512 0; log = replicate 256 0 }) in
    record { exp = mirror_exp 255 255 t.exp; log = t.log }

unfoldable pub exp_at : ℕ → ℕ
exp_at i = at build_tables.exp i

unfoldable pub log_at : ℕ → ℕ
log_at x = at build_tables.log x

unfoldable pub mul : ℕ → ℕ → ℕ
mul zero b = 0
mul (suc a) zero = 0
mul (suc a) (suc b) = exp_at (log_at (suc a) + log_at (suc b))

unfoldable pub div : ℕ → ℕ → Option ℕ
div a zero = none
div zero (suc b) = some 0
div (suc a) (suc b) = some (exp_at ((log_at (suc a) + 255 - log_at (suc b)) % 255))

unfoldable pub inv : ℕ → Option ℕ
inv zero = none
inv (suc a) = some (exp_at (255 - log_at (suc a)))

unfoldable pub add : ℕ → ℕ → ℕ
add a b = bit_xor a b

-- `if (s !== 0) dst[i] ^= EXP[logC + LOG[s]]`
unfoldable pub accumulate : ℕ → ℕ → ℕ → ℕ
accumulate log_c zero d = d
accumulate log_c (suc s) d = bit_xor d (exp_at (log_c + log_at (suc s)))

unfoldable pub accumulate_row : ℕ → List ℕ → List ℕ → List ℕ
accumulate_row log_c [] dst = dst
accumulate_row log_c (s ∷ src) [] = []
accumulate_row log_c (s ∷ src) (d ∷ dst) = accumulate log_c s d ∷ accumulate_row log_c src dst

-- The row `dst` after the call.
unfoldable pub mul_add_row : ℕ → List ℕ → List ℕ → Option (List ℕ)
mul_add_row c src dst =
    if eqb (length src) (length dst)
    then (if eqb c 0 then some dst else some (accumulate_row (log_at c) src dst))
    else none
