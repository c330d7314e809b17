-- ===== src/Abr/Agreement.antt =====
-- The snapshot says what the sender was last given: the two do not drift apart.
use ccn.Prelude.{
  string_key, ◌≡◌, refl, subst, sym, ap, ◌∙◌, inl, inr, Option, none, some, List, [], ◌∷◌, if_cases,
  Option-cases, All,
}
use mathlib.Core.Option.{some-injective}
use ccn.Number.{Number}
use ccn.Abr.{LayerState, Outcome, passed, held, thrown, changed, find_layer}
use ccn.Abr.Stats.{RtcStat, collect}
use ccn.Abr.Controller.{
  Browser, Controller, Encoding, Snapshot, Change, hold, push, push_one, act, action_of, change_of,
  next_snapshot, apply_layers, finish, tick_with, tick,
}
use ccn.Abr.Bounds.{run}

module _ {N : Number} where
  -- An encoding has the target and the activity of the layer of its name, if there is one.
  abbrev pub Follows : List (LayerState N) → Encoding N → Type 0
  Follows ls e =
      (l : LayerState N)
      → find_layer e.rid ls ≡ some l
      → (e.max_bitrate ≡ l.target_bitrate) × (e.active ≡ l.active)

  abbrev pub Agrees : Controller N → Type 0
  Agrees c = All (Follows c.snap.layers) c.encodings

  -- The layer that is found decides.
  pub find_layer-Follows :
      (ls : List (LayerState N)) (e : Encoding N) (k : LayerState N)
      → find_layer e.rid ls ≡ some k
      → e.max_bitrate ≡ k.target_bitrate
      → e.active ≡ k.active
      → Follows ls e
  find_layer-Follows ls e k q a b l f =
      let same = some-injective k l (sym q ∙ f) in
      (a ∙ ap (λ y. y.target_bitrate) same, b ∙ ap (λ y. y.active) same)

  push-Follows :
      (ls : List (LayerState N)) (es : List (Encoding N)) → All (Follows ls) (push N ls es)
  unfolding push
  push-Follows ls [] = tt
  push-Follows ls (e ∷ es) = elim (Option-cases (find_layer e.rid ls)) [
    | inl q ↦
        subst (λ x. All (Follows ls) (push_one N x e ∷ push N ls es)) (sym q)
          (λ l f. absurd (cc), push-Follows ls es)
    | inr (l, q) ↦
        subst (λ x. All (Follows ls) (push_one N x e ∷ push N ls es)) (sym q)
          (find_layer-Follows ls (push_one N (some l) e) l q refl refl, push-Follows ls es)
  ]

  apply_layers-Agrees :
      (b : Browser N) (snap : List (LayerState N) → Snapshot N) (ls : List (LayerState N))
      (es : List (Encoding N)) (c : Controller N)
      → ((ls : List (LayerState N)) → (snap ls).layers ≡ ls)
      → es ≡ c.encodings
      → Agrees c
      → Agrees (apply_layers N b snap ls es c)
  unfolding apply_layers
  apply_layers-Agrees b snap ls [] c same e h = subst (All (Follows (snap ls).layers)) e tt
  apply_layers-Agrees b snap ls (x ∷ es) c same e h =
      if_cases Agrees (b.accepts (push N ls (x ∷ es))) _ _
        (λ t.
          subst (λ y. All (Follows y) (push N ls (x ∷ es))) (sym (same ls))
            (push-Follows ls (x ∷ es)))
        (λ t. h)

  finish-Agrees :
      (b : Browser N) (snap : Change → List (LayerState N) → Snapshot N) (change : Change)
      (x : Outcome N) (c : Controller N)
      → ((change : Change) (ls : List (LayerState N)) → (snap change ls).layers ≡ ls)
      → Agrees c
      → Agrees (finish N b snap change x c)
  unfolding finish
  finish-Agrees b snap change passed c same h = rw (same hold c.snap.layers) h
  finish-Agrees b snap change held c same h = rw (same hold c.snap.layers) h
  finish-Agrees b snap change thrown c same h = h
  finish-Agrees b snap change (changed ls) c same h =
      apply_layers-Agrees b (snap change) ls c.encodings c (same change) refl h

  tick_with-Agrees :
      (b : Browser N) (report : Option (List (RtcStat N))) (c : Controller N)
      → Agrees c
      → Agrees (tick_with N b report c)
  unfolding tick_with
  tick_with-Agrees b none c h = h
  tick_with-Agrees b (some report) c h =
      let s = collect N b.now report in
      finish-Agrees b (next_snapshot N s c) (change_of N (action_of N s c))
        (act N c.opts (action_of N s c) c.snap.layers) (record c { prev = some s })
        (λ change ls. refl) h

  -- After any ticks, whatever the statistics and whichever parameters the sender refuses, every
  -- encoding of the sender has the bit rate and the activity that the snapshot has for its layer,
  -- provided that this held at first.
  pub run-Agrees : (bs : List (Browser N)) (c : Controller N) → Agrees c → Agrees (run bs c)
  unfolding run tick
  run-Agrees [] c h = h
  run-Agrees (b ∷ bs) c h = tick_with-Agrees b b.report (run bs c) (run-Agrees bs c h)
