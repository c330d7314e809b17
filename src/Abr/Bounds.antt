-- ===== src/Abr/Bounds.antt =====
-- Over any number of ticks the layers stay in their ranges, and the lowest one stays active.
use ccn.Prelude.{
  string_key, ◌≡◌, refl, true, false, Option, none, some, List, [], ◌∷◌, if◌then◌else◌, if_cases,
}
use ccn.Number.{Number, Laws}
use ccn.Abr.{
  LayerState, Options, Outcome, passed, held, thrown, changed, find_spec, cut, cut_to, nudge,
  nudge_to, lowered, raised, tighten_from, tighten, reactivate, raise, loosen,
}
use ccn.Abr.Stats.{RtcStat, collect}
use ccn.Abr.Controller.{
  Browser, Controller, Encoding, Snapshot, Change, hold, Action, tightens, loosens, holds, act,
  action_of, change_of, next_snapshot, apply_layers, finish, tick_with, tick, push,
}
use ccn.Abr.Steps.{AllInRange, KeepsRange, tighten_from-KeepsRange, loosen-KeepsRange}

module _ {N : Number} where
  abbrev pub LowestActive : List (LayerState N) → Type 0
  LowestActive [] = Unit {0}
  LowestActive (l ∷ ls) = l.active ≡ true

  abbrev pub KeepsLowest : Outcome N → Type 0
  KeepsLowest passed = Unit {0}
  KeepsLowest held = Unit {0}
  KeepsLowest thrown = Unit {0}
  KeepsLowest (changed ls) = LowestActive ls

module _ {N : Number} (o : Options N) where
  cut-KeepsLowest :
      (l : LayerState N) (ls : List (LayerState N))
      → l.active ≡ true
      → KeepsLowest (cut o true l ls)
  unfolding cut
  cut-KeepsLowest l ls e =
      elim (find_spec l.rid o.layers) as (λ x. KeepsLowest (cut_to o x true l ls)) [
        | none ↦ tt
        | some spec ↦
            if_cases KeepsLowest (N.lt (lowered o spec l) l.target_bitrate) _ _ (λ t. e) (λ t. tt)
      ]

  tighten-KeepsLowest : (ls : List (LayerState N)) → LowestActive ls → KeepsLowest (tighten o ls)
  unfolding tighten tighten_from
  tighten-KeepsLowest [] e = tt
  tighten-KeepsLowest (l ∷ ls) e =
      elim (tighten_from o false ls)
        as (λ x. KeepsLowest (elim x [
          | passed ↦ if l.active then cut o true l ls else passed
          | held ↦ held
          | thrown ↦ thrown
          | changed ls' ↦ changed (l ∷ ls')
        ])) [
          | passed ↦ if_cases KeepsLowest l.active _ _ (λ t. cut-KeepsLowest l ls e) (λ t. tt)
          | held ↦ tt
          | thrown ↦ tt
          | changed ls' ↦ e
        ]

  nudge-KeepsLowest :
      (l : LayerState N) (ls : List (LayerState N)) → l.active ≡ true → KeepsLowest (nudge o l ls)
  unfolding nudge
  nudge-KeepsLowest l ls e =
      elim (find_spec l.rid o.layers) as (λ x. KeepsLowest (nudge_to o x l ls)) [
        | none ↦ tt
        | some spec ↦
            if_cases KeepsLowest (N.lt l.target_bitrate (raised o spec l)) _ _ (λ t. e) (λ t. tt)
      ]

  raise-KeepsLowest : (ls : List (LayerState N)) → LowestActive ls → KeepsLowest (raise o ls)
  unfolding raise
  raise-KeepsLowest [] e = tt
  raise-KeepsLowest (l ∷ ls) e =
      elim (raise o ls)
        as (λ x. KeepsLowest (elim x [
          | passed ↦ nudge o l ls
          | held ↦ held
          | thrown ↦ thrown
          | changed ls' ↦ changed (l ∷ ls')
        ])) [ passed ↦ nudge-KeepsLowest l ls e | held ↦ tt | thrown ↦ tt | changed ls' ↦ e ]

  reactivate-KeepsLowest :
      (ls : List (LayerState N)) → LowestActive ls → KeepsLowest (reactivate o ls)
  unfolding reactivate
  reactivate-KeepsLowest [] e = tt
  reactivate-KeepsLowest (l ∷ ls) e =
      if_cases KeepsLowest l.active _ _
        (λ t.
          elim (reactivate o ls)
            as (λ x. KeepsLowest {N = N} (elim x [
              | passed ↦ passed
              | held ↦ held
              | thrown ↦ thrown
              | changed ls' ↦ changed (l ∷ ls')
            ])) [ passed ↦ tt | held ↦ tt | thrown ↦ tt | changed ls' ↦ e ])
        (λ t. refl)

  loosen-KeepsLowest : (ls : List (LayerState N)) → LowestActive ls → KeepsLowest (loosen o ls)
  unfolding loosen
  loosen-KeepsLowest ls e =
      elim (reactivate o ls)
          as (λ x.
            KeepsLowest x
            → KeepsLowest (elim x [
              | passed ↦ raise o ls
              | held ↦ held
              | thrown ↦ thrown
              | changed ls' ↦ changed ls'
            ])) [
              | passed ↦ λ k. raise-KeepsLowest ls e
              | held ↦ λ k. tt
              | thrown ↦ λ k. tt
              | changed ls' ↦ λ k. k
            ]
        (reactivate-KeepsLowest ls e)

module _ {N : Number} where
  abbrev pub IsBounded : Controller N → Type 0
  IsBounded c = AllInRange c.opts c.snap.layers × LowestActive c.snap.layers

  -- Ticks, the last one first.
  unfoldable pub run : List (Browser N) → Controller N → Controller N
  unfolding tick
  run [] c = c
  run (b ∷ bs) c = tick N b (run bs c)

module _ {N : Number} (law : Laws N) where
  abbrev Keeps : Options N → Outcome N → Type 0
  Keeps o x = KeepsRange o x × KeepsLowest x

  act-Keeps :
      (o : Options N) (a : Action) (ls : List (LayerState N))
      → AllInRange o ls
      → LowestActive ls
      → Keeps o (act N o a ls)
  unfolding act tighten
  act-Keeps o tightens ls r e =
      (tighten_from-KeepsRange o law true ls r, tighten-KeepsLowest o ls e)
  act-Keeps o loosens ls r e = (loosen-KeepsRange o law ls r, loosen-KeepsLowest o ls e)
  act-Keeps o holds ls r e = (tt, tt)

  apply_layers-IsBounded :
      (b : Browser N) (snap : List (LayerState N) → Snapshot N) (ls : List (LayerState N))
      (es : List (Encoding N)) (c : Controller N)
      → ((ls : List (LayerState N)) → (snap ls).layers ≡ ls)
      → AllInRange c.opts ls
      → LowestActive ls
      → IsBounded c
      → IsBounded (apply_layers N b snap ls es c)
  unfolding apply_layers
  apply_layers-IsBounded b snap ls [] c same r e h = rw (same ls) (r, e)
  apply_layers-IsBounded b snap ls (x ∷ es) c same r e h =
      if_cases IsBounded (b.accepts (push N ls (x ∷ es))) _ _ (λ t. rw (same ls) (r, e)) (λ t. h)

  finish-IsBounded :
      (b : Browser N) (snap : Change → List (LayerState N) → Snapshot N) (change : Change)
      (x : Outcome N) (c : Controller N)
      → ((change : Change) (ls : List (LayerState N)) → (snap change ls).layers ≡ ls)
      → Keeps c.opts x
      → IsBounded c
      → IsBounded (finish N b snap change x c)
  unfolding finish
  finish-IsBounded b snap change passed c same k (r, e) = rw (same hold c.snap.layers) (r, e)
  finish-IsBounded b snap change held c same k (r, e) = rw (same hold c.snap.layers) (r, e)
  finish-IsBounded b snap change thrown c same k h = h
  finish-IsBounded b snap change (changed ls) c same (r, e) h =
      apply_layers-IsBounded b (snap change) ls c.encodings c (same change) r e h

  tick_with-IsBounded :
      (b : Browser N) (report : Option (List (RtcStat N))) (c : Controller N)
      → IsBounded c
      → IsBounded (tick_with N b report c)
  unfolding tick_with
  tick_with-IsBounded b none c h = h
  tick_with-IsBounded b (some report) c (r, e) =
      let s = collect N b.now report in
      finish-IsBounded b (next_snapshot N s c) (change_of N (action_of N s c))
        (act N c.opts (action_of N s c) c.snap.layers) (record c { prev = some s })
        (λ change ls. refl) (act-Keeps c.opts (action_of N s c) c.snap.layers r e) (r, e)

  tick-IsBounded : (b : Browser N) (c : Controller N) → IsBounded c → IsBounded (tick N b c)
  unfolding tick
  tick-IsBounded b c h = tick_with-IsBounded b b.report c h

  -- However the statistics read and whatever the sender refuses, after any ticks each layer has
  -- its target between the floor and the ceiling of its specification, and the lowest layer is
  -- active, provided that this held at first.
  pub run-IsBounded :
      (bs : List (Browser N)) (c : Controller N) → IsBounded c → IsBounded (run bs c)
  unfolding run
  run-IsBounded [] c h = h
  run-IsBounded (b ∷ bs) c h = tick-IsBounded b (run bs c) (run-IsBounded bs c h)
