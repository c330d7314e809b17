-- ===== src/Prelude/Maps.antt =====
-- The `Map` of JavaScript: entries in the order of their first insertion. `set` of a key that is
-- there replaces the value in its place.
use Prim.Native.Nat.{suc}
use mathlib.Core.Path.{◌≡◌, refl, subst}
use mathlib.Core.Logic.{◌≢◌, inl, inr}
use mathlib.Core.Bool.{Bool, true, false}
use mathlib.Core.Option.{Option, none, some, some-injective}
use mathlib.Core.List.{List, [], ◌∷◌, ◌++◌}
use native.Mathlib.Omega.{arith}
use ccn.Prelude.Tests.{Key, same_refl, Bool-cases, if◌then◌else◌}
use ccn.Prelude.Lists.{length}

abbrev pub JsMap {ℓ κ} : Type ℓ → Type κ → Type (ℓ ⊔ κ)
JsMap K V = List (K × V)

module _ {ℓ κ} {K : Type ℓ} {V : Type κ} ⦃k : Key K⦄ where
  unfoldable pub map_get : K → JsMap K V → Option V
  map_get a [] = none
  map_get a ((b, v) ∷ m) = if k.same b a then some v else map_get a m

  unfoldable pub map_has : K → JsMap K V → Bool
  map_has a [] = false
  map_has a ((b, v) ∷ m) = if k.same b a then true else map_has a m

  unfoldable pub map_set : K → V → JsMap K V → JsMap K V
  map_set a v [] = (a, v) ∷ []
  map_set a v ((b, w) ∷ m) = if k.same b a then (b, v) ∷ m else (b, w) ∷ map_set a v m

  unfoldable pub map_delete : K → JsMap K V → JsMap K V
  map_delete a [] = []
  map_delete a ((b, v) ∷ m) = if k.same b a then m else (b, v) ∷ map_delete a m

  pub map_get-set_self : (a : K) (v : V) (m : JsMap K V) → map_get a (map_set a v m) ≡ some v
  unfolding map_get map_set
  map_get-set_self a v [] = rw (same_refl a)
  map_get-set_self a v ((b, w) ∷ m) = elim (Bool-cases (k.same b a)) [
    | inl e ↦ rw e (rw e)
    | inr e ↦ rw e (rw e (map_get-set_self a v m))
  ]

  pub map_get-set_ne :
      (a c : K) (v : V) (m : JsMap K V) → a ≢ c → map_get c (map_set a v m) ≡ map_get c m
  unfolding map_get map_set
  map_get-set_ne a c v [] h = ground (arith, k.same_iff a c)
  map_get-set_ne a c v ((b, w) ∷ m) h =
      ground (arith, k.same_iff b a, k.same_iff b c, map_get-set_ne a c v m h)

  pub map_get-set :
      (a c : K) (v : V) (m : JsMap K V)
      → map_get c (map_set a v m) ≡ (if k.same a c then some v else map_get c m)
  map_get-set a c v m = elim (Bool-cases (k.same a c)) [
    | inl e ↦ rw e (rw ((k.same_iff a c).0 e) (map_get-set_self c v m))
    | inr e ↦ rw e (map_get-set_ne a c v m (λ p. ground (arith, k.same_iff a c)))
  ]

  -- `has` says whether `get` finds a value.
  pub map_has-get : (a : K) (m : JsMap K V) → map_has a m ≡ false → map_get a m ≡ none
  unfolding map_get map_has
  map_has-get a [] h = refl
  map_has-get a ((b, v) ∷ m) h = ground (arith, map_has-get a m)

  pub map_get-has : (a : K) (m : JsMap K V) {v : V} → map_get a m ≡ some v → map_has a m ≡ true
  unfolding map_get map_has
  map_get-has a [] h = absurd (cc)
  map_get-has a ((b, w) ∷ m) {v} h = ground (arith, map_get-has a m {v = v})

  pub map_has-get_some :
      (a : K) (m : JsMap K V) → map_has a m ≡ true → (v : V) × (map_get a m ≡ some v)
  unfolding map_get map_has
  map_has-get_some a [] h = absurd (cc)
  map_has-get_some a ((b, w) ∷ m) h = elim (Bool-cases (k.same b a)) [
    | inl e ↦ (w, rw e)
    | inr e ↦ rw e (map_has-get_some a m (ground arith))
  ]

  -- No key stands twice: the well-formedness of a map.
  abbrev pub IsDistinct : JsMap K V → Type 0
  IsDistinct [] = Unit {0}
  IsDistinct ((b, v) ∷ m) = (map_has b m ≡ false) × IsDistinct m

  pub map_has-set :
      (a c : K) (v : V) (m : JsMap K V)
      → map_has c (map_set a v m) ≡ (if k.same a c then true else map_has c m)
  unfolding map_has map_set
  map_has-set a c v [] = refl
  map_has-set a c v ((b, w) ∷ m) =
      ground (arith, k.same_iff b a, k.same_iff b c, k.same_iff a c, map_has-set a c v m)

  pub map_set-IsDistinct :
      (a : K) (v : V) (m : JsMap K V) → IsDistinct m → IsDistinct (map_set a v m)
  unfolding map_set map_has
  map_set-IsDistinct a v [] h = (refl, tt)
  map_set-IsDistinct a v ((b, w) ∷ m) (n, h) =
      ground
        (arith, k.same_iff b a, k.same_iff a b, map_has-set a b v m, map_set-IsDistinct a v m h)

  pub map_has-delete_ne :
      (a c : K) (m : JsMap K V) → a ≢ c → map_has c (map_delete a m) ≡ map_has c m
  unfolding map_has map_delete
  map_has-delete_ne a c [] h = refl
  map_has-delete_ne a c ((b, w) ∷ m) h =
      ground (arith, k.same_iff b a, k.same_iff b c, map_has-delete_ne a c m h)

  pub map_has-delete_self :
      (a : K) (m : JsMap K V) → IsDistinct m → map_has a (map_delete a m) ≡ false
  unfolding map_has map_delete
  map_has-delete_self a [] h = refl
  map_has-delete_self a ((b, w) ∷ m) (n, h) =
      ground (arith, k.same_iff b a, map_has-delete_self a m h)

  pub map_delete-IsDistinct : (a : K) (m : JsMap K V) → IsDistinct m → IsDistinct (map_delete a m)
  unfolding map_delete
  map_delete-IsDistinct a [] h = tt
  map_delete-IsDistinct a ((b, w) ∷ m) (n, h) =
      ground (
        arith,
        k.same_iff b a,
        k.same_iff a b,
        map_has-delete_ne a b m,
        map_delete-IsDistinct a m h,
      )

  pub map_get-delete_ne :
      (a c : K) (m : JsMap K V) → a ≢ c → map_get c (map_delete a m) ≡ map_get c m
  unfolding map_get map_delete
  map_get-delete_ne a c [] h = refl
  map_get-delete_ne a c ((b, w) ∷ m) h =
      ground (arith, k.same_iff b a, k.same_iff b c, map_get-delete_ne a c m h)

  pub map_get-delete_self :
      (a : K) (m : JsMap K V) → IsDistinct m → map_get a (map_delete a m) ≡ none
  map_get-delete_self a m h = map_has-get a _ (map_has-delete_self a m h)

  pub length-set_new :
      (a : K) (v : V) (m : JsMap K V)
      → map_has a m ≡ false
      → length (map_set a v m) ≡ suc (length m)
  unfolding map_has map_set
  length-set_new a v [] h = refl
  length-set_new a v ((b, w) ∷ m) h = ground (arith, length-set_new a v m)

  -- A new key goes to the end.
  pub map_set_new :
      (a : K) (v : V) (m : JsMap K V) → map_has a m ≡ false → map_set a v m ≡ m ++ ((a, v) ∷ [])
  unfolding map_has map_set
  map_set_new a v [] h = refl
  map_set_new a v ((b, w) ∷ m) h = ground (arith, map_set_new a v m)

  pub map_delete_head : (a : K) (v : V) (m : JsMap K V) → map_delete a ((a, v) ∷ m) ≡ m
  unfolding map_delete
  map_delete_head a v m = rw (same_refl a)

-- A predicate on the values of a map.
module _ {ℓ κ μ} {K : Type ℓ} {V : Type κ} (P : V → Type μ) where
  abbrev pub AllValues : JsMap K V → Type μ
  AllValues [] = Unit
  AllValues ((a, v) ∷ m) = P v × AllValues m

  module _ ⦃k : Key K⦄ where
    pub AllValues-set :
        (a : K) (v : V) (m : JsMap K V) → P v → AllValues m → AllValues (map_set a v m)
    unfolding map_set
    AllValues-set a v [] p h = (p, tt)
    AllValues-set a v ((b, w) ∷ m) p (q, h) = elim (Bool-cases (k.same b a)) [
      | inl e ↦ rw e (p, h)
      | inr e ↦ rw e (q, AllValues-set a v m p h)
    ]

    pub AllValues-delete : (a : K) (m : JsMap K V) → AllValues m → AllValues (map_delete a m)
    unfolding map_delete
    AllValues-delete a [] h = tt
    AllValues-delete a ((b, w) ∷ m) (q, h) = elim (Bool-cases (k.same b a)) [
      | inl e ↦ rw e h
      | inr e ↦ rw e (q, AllValues-delete a m h)
    ]

    pub AllValues-get : (a : K) (m : JsMap K V) {v : V} → AllValues m → map_get a m ≡ some v → P v
    unfolding map_get
    AllValues-get a [] h e = absurd (cc)
    AllValues-get a ((b, w) ∷ m) {v} (q, h) e = elim (Bool-cases (k.same b a)) [
      | inl s ↦ subst P (some-injective _ _ (rw s at e)) q
      | inr s ↦ AllValues-get a m h (rw s at e)
    ]
