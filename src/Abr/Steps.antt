-- ===== src/Abr/Steps.antt =====
-- What `tighten` and `loosen` may do to one layer, and how far they stop.
use ccn.Prelude.{
  string_key, ◌≡◌, subst, sym, Bool, true, false, some, List, [], ◌∷◌, if◌then◌else◌, if_cases,
}
use ccn.Number.{Number, Laws}
use ccn.Abr.{
  LayerSpec, LayerState, Options, Outcome, passed, held, thrown, changed, find_spec, cut, cut_to,
  nudge_to, lowered, raised, tighten_from, reactivate, nudge, raise, loosen,
}

module _ {N : Number} (o : Options N) where
  -- A layer between the floor and the ceiling of its specification.
  abbrev pub InRange : LayerState N → Type 0
  InRange l =
      (spec : LayerSpec N) × (find_spec l.rid o.layers ≡ some spec)
      × (N.le spec.min_bitrate l.target_bitrate ≡ true)
      × (N.le l.target_bitrate spec.max_bitrate ≡ true)

  abbrev pub AllInRange : List (LayerState N) → Type 0
  AllInRange [] = Unit {0}
  AllInRange (l ∷ ls) = InRange l × AllInRange ls

  -- Of an outcome: it is no throw, and layers that were changed are in range.
  abbrev pub KeepsRange : Outcome N → Type 0
  KeepsRange passed = Unit {0}
  KeepsRange held = Unit {0}
  KeepsRange thrown = ⊥
  KeepsRange (changed ls) = AllInRange ls

module _ {N : Number} (o : Options N) (law : Laws N) where
  cut-KeepsRange :
      (is_lowest : Bool) (l : LayerState N) (ls : List (LayerState N))
      → InRange o l
      → AllInRange o ls
      → KeepsRange o (cut o is_lowest l ls)
  unfolding cut
  cut-KeepsRange is_lowest l ls (spec, e, a, b) h =
      subst (λ x. KeepsRange o (cut_to o x is_lowest l ls)) (sym e)
        (if_cases (KeepsRange o) (N.lt (lowered o spec l) l.target_bitrate) _ _
          (λ t. (
            (
              spec,
              e,
              law.upper-left _ _,
              law.le-trans (lowered o spec l) l.target_bitrate spec.max_bitrate (law.lt-le _ _ t) b,
            ),
            h,
          ))
          (λ t. if_cases (KeepsRange o) is_lowest _ _ (λ u. tt) (λ u. ((spec, e, a, b), h))))

  nudge-KeepsRange :
      (l : LayerState N) (ls : List (LayerState N))
      → InRange o l
      → AllInRange o ls
      → KeepsRange o (nudge o l ls)
  unfolding nudge
  nudge-KeepsRange l ls (spec, e, a, b) h =
      subst (λ x. KeepsRange o (nudge_to o x l ls)) (sym e)
        (if_cases (KeepsRange o) (N.lt l.target_bitrate (raised o spec l)) _ _
          (λ t. (
            (
              spec,
              e,
              law.le-trans spec.min_bitrate l.target_bitrate (raised o spec l) a (law.lt-le _ _ t),
              law.lower-left _ _,
            ),
            h,
          ))
          (λ t. tt))

  pub tighten_from-KeepsRange :
      (is_lowest : Bool) (ls : List (LayerState N))
      → AllInRange o ls
      → KeepsRange o (tighten_from o is_lowest ls)
  unfolding tighten_from
  tighten_from-KeepsRange is_lowest [] h = tt
  tighten_from-KeepsRange is_lowest (l ∷ ls) (r, h) =
      elim (tighten_from o false ls)
          as (λ x.
            KeepsRange o x
            → KeepsRange o (elim x [
              | passed ↦ if l.active then cut o is_lowest l ls else passed
              | held ↦ held
              | thrown ↦ thrown
              | changed ls' ↦ changed (l ∷ ls')
            ])) [
              | passed ↦ λ k.
                  if_cases (KeepsRange o) l.active _ _ (λ e. cut-KeepsRange is_lowest l ls r h)
                    (λ e. tt)
              | held ↦ λ k. tt
              | thrown ↦ λ k. k
              | changed ls' ↦ λ k. (r, k)
            ]
        (tighten_from-KeepsRange false ls h)

  raise-KeepsRange : (ls : List (LayerState N)) → AllInRange o ls → KeepsRange o (raise o ls)
  unfolding raise
  raise-KeepsRange [] h = tt
  raise-KeepsRange (l ∷ ls) (r, h) =
      elim (raise o ls)
          as (λ x.
            KeepsRange o x
            → KeepsRange o (elim x [
              | passed ↦ nudge o l ls
              | held ↦ held
              | thrown ↦ thrown
              | changed ls' ↦ changed (l ∷ ls')
            ])) [
              | passed ↦ λ k. nudge-KeepsRange l ls r h
              | held ↦ λ k. tt
              | thrown ↦ λ k. k
              | changed ls' ↦ λ k. (r, k)
            ]
        (raise-KeepsRange ls h)

  reactivate-KeepsRange :
      (ls : List (LayerState N)) → AllInRange o ls → KeepsRange o (reactivate o ls)
  unfolding reactivate
  reactivate-KeepsRange [] h = tt
  reactivate-KeepsRange (l ∷ ls) (r, h) =
      if_cases (KeepsRange o) l.active _ _
        (λ e.
          elim (reactivate o ls)
              as (λ x.
                KeepsRange o x
                → KeepsRange o (elim x [
                  | passed ↦ passed
                  | held ↦ held
                  | thrown ↦ thrown
                  | changed ls' ↦ changed (l ∷ ls')
                ])) [
                  | passed ↦ λ k. tt
                  | held ↦ λ k. tt
                  | thrown ↦ λ k. k
                  | changed ls' ↦ λ k. (r, k)
                ]
            (reactivate-KeepsRange ls h))
        (λ e. (r, h))

  pub loosen-KeepsRange : (ls : List (LayerState N)) → AllInRange o ls → KeepsRange o (loosen o ls)
  unfolding loosen
  loosen-KeepsRange ls h =
      elim (reactivate o ls)
          as (λ x.
            KeepsRange o x
            → KeepsRange o (elim x [
              | passed ↦ raise o ls
              | held ↦ held
              | thrown ↦ thrown
              | changed ls' ↦ changed ls'
            ])) [
              | passed ↦ λ k. raise-KeepsRange ls h
              | held ↦ λ k. tt
              | thrown ↦ λ k. k
              | changed ls' ↦ λ k. k
            ]
        (reactivate-KeepsRange ls h)
