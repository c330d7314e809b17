-- ===== src/Erasure/Gf256/Poles.antt =====
-- Sums of `d / (x + y)` over terms with distinct poles `y`.
use Prim.Native.Nat.{bit_xor}
use ccn.Prelude.{ℕ, suc, ◌≤◌, ◌<◌, ◌≡◌, ◌≢◌, refl, ap, sym, ◌∙◌, arith}
use ccn.Prelude.{List, [], ◌∷◌, map, length, All}
use ccn.Erasure.Gf256.{mul}
use ccn.Erasure.Gf256.Xor.{zero-xor, xor-zero, xor_self, xor_swap, xor-lt}
use ccn.Erasure.Gf256.Laws.{mul-lt, mul-xor, mul-zero}
use ccn.Erasure.Gf256.Cauchy.{
  recip, recip-lt, recip-pos, mul_zero_right, zero_mul, xor-pos, term_free,
}

-- A pole and a coefficient.
pub record Term : Type 0 where
  pub pole : ℕ
  pub coefficient : ℕ

abbrev pub fraction : ℕ → Term → ℕ
fraction x t = mul (recip (bit_xor x t.pole)) t.coefficient

abbrev pub fractions : ℕ → List Term → ℕ
fractions x [] = 0
fractions x (t ∷ ts) = bit_xor (fraction x t) (fractions x ts)

-- A term of bytes whose pole is not `x`.
pub record IsFor (x : ℕ) (t : Term) : Type 0 where
  pub pole_byte : t.pole < 256
  pub coefficient_byte : t.coefficient < 256
  pub apart : x ≢ t.pole

abbrev pub AreFor : ℕ → List Term → Type 0
AreFor x ts = All (IsFor x) ts

-- No two poles are the same.
abbrev pub AreDistinct : List Term → Type 0
AreDistinct [] = Unit {0}
AreDistinct (t ∷ ts) = All (λ u. t.pole ≢ u.pole) ts × AreDistinct ts

fraction-lt : (x : ℕ) (t : Term) → x < 256 → IsFor x t → fraction x t < 256
fraction-lt x t h f =
    mul-lt (recip (bit_xor x t.pole)) t.coefficient
      (recip-lt (bit_xor x t.pole) (xor-lt 8 x t.pole h f.pole_byte)) f.coefficient_byte

fractions-lt : (x : ℕ) (ts : List Term) → x < 256 → AreFor x ts → fractions x ts < 256
fractions-lt x [] h f = omega arith
fractions-lt x (t ∷ ts) h (f, g) =
    xor-lt 8 (fraction x t) (fractions x ts) (fraction-lt x t h f) (fractions-lt x ts h g)

-- The coefficient once the pole `z` and the point `w` are gone.
freed : ℕ → ℕ → Term → Term
freed w z t = record {
  pole = t.pole;
  coefficient = mul (bit_xor z t.pole) (mul (recip (bit_xor w t.pole)) t.coefficient);
}

free : ℕ → ℕ → List Term → List Term
free w z ts = map (freed w z) ts

freed-IsFor :
    (w z x : ℕ) (t : Term) → w < 256 → z < 256 → IsFor w t → IsFor x t → IsFor x (freed w z t)
unfolding freed
freed-IsFor w z x t hw hz f g = record {
  pole_byte = f.pole_byte;
  coefficient_byte =
      mul-lt (bit_xor z t.pole) (fraction w t) (xor-lt 8 z t.pole hz f.pole_byte)
        (fraction-lt w t hw f);
  apart = g.apart;
}

free-AreFor :
    (w z x : ℕ) (ts : List Term)
    → w < 256
    → z < 256
    → AreFor w ts
    → AreFor x ts
    → AreFor x (free w z ts)
unfolding free
free-AreFor w z x [] hw hz f g = tt
free-AreFor w z x (t ∷ ts) hw hz (f, fs) (g, gs) =
    (freed-IsFor w z x t hw hz f g, free-AreFor w z x ts hw hz fs gs)

free-apart :
    (w z p : ℕ) (ts : List Term) → All (λ u. p ≢ u.pole) ts → All (λ u. p ≢ u.pole) (free w z ts)
unfolding free freed
free-apart w z p [] h = tt
free-apart w z p (t ∷ ts) (n, h) = (n, free-apart w z p ts h)

free-AreDistinct : (w z : ℕ) (ts : List Term) → AreDistinct ts → AreDistinct (free w z ts)
unfolding free freed
free-AreDistinct w z [] h = tt
free-AreDistinct w z (t ∷ ts) (n, h) = (free-apart w z t.pole ts n, free-AreDistinct w z ts h)

-- The sum at two points, freed of the pole `z`.
fractions-free :
    (x w z : ℕ) (ts : List Term)
    → x < 256
    → w < 256
    → z < 256
    → AreFor x ts
    → AreFor w ts
    → bit_xor (mul (bit_xor x z) (fractions x ts)) (mul (bit_xor w z) (fractions w ts))
      ≡ mul (bit_xor x w) (fractions x (free w z ts))
unfolding free freed
fractions-free x w z [] hx hw hz f g =
    rw (mul-zero (bit_xor x z), mul-zero (bit_xor w z), mul-zero (bit_xor x w)) refl
fractions-free x w z (t ∷ ts) hx hw hz (f, fs) (g, gs) =
    let xz : bit_xor x z < 256 = xor-lt 8 x z hx hz in
    let wz : bit_xor w z < 256 = xor-lt 8 w z hw hz in
    let xw : bit_xor x w < 256 = xor-lt 8 x w hx hw in
    rw
      (
        mul-xor (bit_xor x z) (fraction x t) (fractions x ts) xz (fraction-lt x t hx f)
            (fractions-lt x ts hx fs),
        mul-xor (bit_xor w z) (fraction w t) (fractions w ts) wz (fraction-lt w t hw g)
            (fractions-lt w ts hw gs),
        xor_swap (mul (bit_xor x z) (fraction x t)) (mul (bit_xor x z) (fractions x ts))
            (mul (bit_xor w z) (fraction w t)) (mul (bit_xor w z) (fractions w ts)),
        term_free x w t.pole z t.coefficient hx hw f.pole_byte hz f.coefficient_byte f.apart
            g.apart,
        fractions-free x w z ts hx hw hz fs gs,
      )
      (sym (
        mul-xor (bit_xor x w) (fraction x (freed w z t)) (fractions x (free w z ts)) xw
          (fraction-lt x (freed w z t) hx (freed-IsFor w z x t hw hz g f))
          (fractions-lt x (free w z ts) hx (free-AreFor w z x ts hw hz gs fs))))

length-free : (w z : ℕ) (ts : List Term) → length (free w z ts) ≡ length ts
unfolding free
length-free w z [] = refl
length-free w z (t ∷ ts) = ap suc (length-free w z ts)

-- The coefficients are all 0.
abbrev pub AreZero : List Term → Type 0
AreZero ts = All (λ t. t.coefficient ≡ 0) ts

free-AreZero :
    (w z : ℕ) (ts : List Term)
    → w < 256
    → z < 256
    → AreFor w ts
    → All (λ u. z ≢ u.pole) ts
    → AreZero (free w z ts)
    → AreZero ts
unfolding free freed
free-AreZero w z [] hw hz f n h = tt
free-AreZero w z (t ∷ ts) hw hz (f, fs) (n, ns) (e, h) =
    let wt : bit_xor w t.pole < 256 = xor-lt 8 w t.pole hw f.pole_byte in
    (
      mul_zero_right (recip (bit_xor w t.pole)) t.coefficient
          (recip-pos (bit_xor w t.pole) (xor-pos w t.pole f.apart) wt)
          (recip-lt (bit_xor w t.pole) wt) f.coefficient_byte
          (mul_zero_right (bit_xor z t.pole) (fraction w t) (xor-pos z t.pole n)
            (xor-lt 8 z t.pole hz f.pole_byte) (fraction-lt w t hw f) e),
      free-AreZero w z ts hw hz fs ns h,
    )

-- A sum of zeros.
fractions_zero : (x : ℕ) (ts : List Term) → AreZero ts → fractions x ts ≡ 0
fractions_zero x [] h = refl
fractions_zero x (t ∷ ts) (e, h) =
    rw (e, mul-zero (recip (bit_xor x t.pole)), fractions_zero x ts h) refl

-- At the points the sum is 0.
abbrev pub Vanish : List Term → List ℕ → Type 0
Vanish ts xs = All (λ x. (x < 256) × AreFor x ts × (fractions x ts ≡ 0)) xs

-- The points are distinct.
abbrev pub AreApart : List ℕ → Type 0
AreApart [] = Unit {0}
AreApart (x ∷ xs) = All (λ w. w ≢ x) xs × AreApart xs

first_gone :
    (x w : ℕ) (t : Term) (ts : List Term)
    → fractions x (free w t.pole (t ∷ ts)) ≡ fractions x (free w t.pole ts)
unfolding free freed
first_gone x w t ts =
    rw
      (
        xor_self t.pole,
        zero_mul (mul (recip (bit_xor w t.pole)) t.coefficient),
        mul-zero (recip (bit_xor x t.pole)),
      )
      (zero-xor (fractions x (map (freed w t.pole) ts)))

free-Vanish :
    (w : ℕ) (t : Term) (ts : List Term) (xs : List ℕ)
    → w < 256
    → AreFor w (t ∷ ts)
    → fractions w (t ∷ ts) ≡ 0
    → All (λ x. x ≢ w) xs
    → Vanish (t ∷ ts) xs
    → Vanish (free w t.pole ts) xs
free-Vanish w t ts [] hw f e n h = tt
free-Vanish w t ts (x ∷ xs) hw f e (n, ns) ((hx, g, v), h) =
    let z : ℕ = t.pole in
    let hz : z < 256 = f.0.pole_byte in
    let all : AreFor x (free w z (t ∷ ts)) = free-AreFor w z x (t ∷ ts) hw hz f g in
    let product : mul (bit_xor x w) (fractions x (free w z (t ∷ ts))) ≡ 0 =
      sym (fractions-free x w z (t ∷ ts) hx hw hz g f)
      ∙ rw (v, e, mul-zero (bit_xor x z), mul-zero (bit_xor w z)) refl in
    let gone : fractions x (free w z (t ∷ ts)) ≡ 0 =
      mul_zero_right (bit_xor x w) (fractions x (free w z (t ∷ ts))) (xor-pos x w n)
        (xor-lt 8 x w hx hw) (fractions-lt x (free w z (t ∷ ts)) hx all) product in
    (
      (hx, free-AreFor w z x ts hw hz f.1 g.1, sym (first_gone x w t ts) ∙ gone),
      free-Vanish w t ts xs hw f e ns h,
    )

-- A sum of fractions with distinct poles that is 0 at as many distinct points as it has terms has
-- no coefficient but 0.
pub Vanish-AreZero :
    (ts : List Term) (xs : List ℕ)
    → length ts ≤ length xs
    → AreDistinct ts
    → AreApart xs
    → Vanish ts xs
    → AreZero ts
Vanish-AreZero [] xs l d a h = tt
Vanish-AreZero (t ∷ ts) [] l d a h = absurd (omega arith)
Vanish-AreZero (t ∷ ts) (w ∷ xs) l (n, d) (b, a) ((hw, (f, fs), v), h) =
    let z : ℕ = t.pole in
    let hz : z < 256 = f.pole_byte in
    let rest : AreZero ts = free-AreZero w z ts hw hz fs n (
      Vanish-AreZero (free w z ts) xs (omega (arith, length-free w z ts))
        (free-AreDistinct w z ts d) a (free-Vanish w t ts xs hw (f, fs) v b h)) in
    let wt : bit_xor w z < 256 = xor-lt 8 w z hw hz in
    let alone : fraction w t ≡ 0 =
      sym (xor-zero (fraction w t))
      ∙ ap (bit_xor (fraction w t)) (sym (fractions_zero w ts rest))
      ∙ v in
    (
      mul_zero_right (recip (bit_xor w z)) t.coefficient
          (recip-pos (bit_xor w z) (xor-pos w z f.apart) wt) (recip-lt (bit_xor w z) wt)
          f.coefficient_byte alone,
      rest,
    )
