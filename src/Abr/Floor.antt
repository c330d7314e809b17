-- ===== src/Abr/Floor.antt =====
-- `tighten` holds only where nothing is left to take away.
use ccn.Prelude.{
  string_key, ◌≡◌, subst, sym, ◌∙◌, inl, inr, true, false, none, some, List, [], ◌∷◌, if◌then◌else◌,
  if_cases, Option-cases, All,
}
use mathlib.Core.Option.{some-injective}
use ccn.Number.{Number}
use ccn.Abr.{
  LayerSpec, LayerState, Options, Outcome, passed, held, thrown, changed, find_spec, lowered, cut,
  cut_to, tighten_from, tighten,
}

module _ {N : Number} (o : Options N) where
  abbrev pub IsOff : LayerState N → Type 0
  IsOff l = l.active ≡ false

  -- The layer is not lowered any more.
  abbrev pub AtFloor : LayerState N → Type 0
  AtFloor l =
      (spec : LayerSpec N)
      → find_spec l.rid o.layers ≡ some spec
      → N.lt (lowered o spec l) l.target_bitrate ≡ false

  -- What an outcome says of the layers that the loop went through, which are not the lowest.
  abbrev pub SaysUpper : List (LayerState N) → Outcome N → Type 0
  SaysUpper ls passed = All IsOff ls
  SaysUpper ls held = ⊥
  SaysUpper ls thrown = Unit {0}
  SaysUpper ls (changed ls') = Unit {0}

  cut-SaysUpper :
      (ks : List (LayerState N)) (l : LayerState N) (ls : List (LayerState N))
      → SaysUpper ks (cut o false l ls)
  unfolding cut
  cut-SaysUpper ks l ls =
      elim (find_spec l.rid o.layers) as (λ x. SaysUpper ks (cut_to o x false l ls)) [
        | none ↦ tt
        | some spec ↦
            if_cases (SaysUpper ks) (N.lt (lowered o spec l) l.target_bitrate) _ _ (λ t. tt)
              (λ t. tt)
      ]

  tighten_from-SaysUpper : (ls : List (LayerState N)) → SaysUpper ls (tighten_from o false ls)
  unfolding tighten_from
  tighten_from-SaysUpper [] = tt
  tighten_from-SaysUpper (l ∷ ls) =
      elim (tighten_from o false ls)
          as (λ x.
            SaysUpper ls x
            → SaysUpper (l ∷ ls) (elim x [
              | passed ↦ if l.active then cut o false l ls else passed
              | held ↦ held
              | thrown ↦ thrown
              | changed ls' ↦ changed (l ∷ ls')
            ])) [
              | passed ↦ λ k.
                  if_cases (SaysUpper (l ∷ ls)) l.active _ _ (λ t. cut-SaysUpper (l ∷ ls) l ls)
                    (λ t. (t, k))
              | held ↦ λ k. k
              | thrown ↦ λ k. tt
              | changed ls' ↦ λ k. tt
            ]
        (tighten_from-SaysUpper ls)

  abbrev pub SaysAll : LayerState N → List (LayerState N) → Outcome N → Type 0
  SaysAll l ls passed = IsOff l × All IsOff ls
  SaysAll l ls held = (l.active ≡ true) × AtFloor l × All IsOff ls
  SaysAll l ls thrown = Unit {0}
  SaysAll l ls (changed ls') = Unit {0}

  cut-SaysAll :
      (l : LayerState N) (ls : List (LayerState N))
      → l.active ≡ true
      → All IsOff ls
      → SaysAll l ls (cut o true l ls)
  unfolding cut
  cut-SaysAll l ls e h = elim (Option-cases (find_spec l.rid o.layers)) [
    | inl q ↦ subst (λ x. SaysAll l ls (cut_to o x true l ls)) (sym q) tt
    | inr (spec, q) ↦
        subst (λ x. SaysAll l ls (cut_to o x true l ls)) (sym q)
          (if_cases (SaysAll l ls) (N.lt (lowered o spec l) l.target_bitrate) _ _ (λ t. tt)
            (λ t. (
              e,
              λ spec' q'.
                  subst (λ x. N.lt (lowered o x l) l.target_bitrate ≡ false)
                    (some-injective spec spec' (sym q ∙ q')) t,
              h,
            )))
  ]

  tighten-SaysAll :
      (l : LayerState N) (ls : List (LayerState N)) → SaysAll l ls (tighten o (l ∷ ls))
  unfolding tighten tighten_from
  tighten-SaysAll l ls =
      elim (tighten_from o false ls)
          as (λ x.
            SaysUpper ls x
            → SaysAll l ls (elim x [
              | passed ↦ if l.active then cut o true l ls else passed
              | held ↦ held
              | thrown ↦ thrown
              | changed ls' ↦ changed (l ∷ ls')
            ])) [
              | passed ↦ λ k.
                  if_cases (SaysAll l ls) l.active _ _ (λ t. cut-SaysAll l ls t k) (λ t. (t, k))
              | held ↦ λ k. absurd k
              | thrown ↦ λ k. tt
              | changed ls' ↦ λ k. tt
            ]
        (tighten_from-SaysUpper ls)

  -- `tighten` returns "hold" from inside its loop only where the lowest layer is active and at the
  -- floor, so that the decrease would not lower it, and all others are off; and it falls off the
  -- loop only where all layers are off.
  pub tighten-hold :
      (l : LayerState N) (ls : List (LayerState N))
      → ((tighten o (l ∷ ls) ≡ held) → (l.active ≡ true) × AtFloor l × All IsOff ls)
        × ((tighten o (l ∷ ls) ≡ passed) → All IsOff (l ∷ ls))
  tighten-hold l ls = (
    λ e. subst (SaysAll l ls) e (tighten-SaysAll l ls),
    λ e. subst (SaysAll l ls) e (tighten-SaysAll l ls),
  )
