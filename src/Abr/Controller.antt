-- ===== src/Abr/Controller.antt =====
-- frontend/src/lib/abr/abr.ts: the state of a controller and the tick.
use ccn.Prelude.{
  string_key, ℕ, suc, Bool, true, ◌&&◌, Option, none, some, String, List, [], ◌∷◌, if◌then◌else◌,
}
use ccn.Number.{Number}
use ccn.Abr.{
  LayerSpec, LayerState, Options, Outcome, passed, held, thrown, changed, find_layer, tighten,
  loosen,
}
use ccn.Abr.Stats.{RtcStat, Sample, collect}

pub data Change : Type 0 where
  up down hold : Change

pub record Snapshot (N : Number) : Type 0 where
  pub layers : List (LayerState N)
  pub available_bitrate : Option N.Num
  pub observed_bps : N.Num
  pub packet_loss_pct : N.Num
  pub last_change : Change
  pub ticks : ℕ

-- The part of the sender's parameters that the controller sets.
pub record Encoding (N : Number) : Type 0 where
  pub rid : String
  pub max_bitrate : N.Num
  pub active : Bool

-- The controller and its sender: `encodings` is what `getParameters` reads, and `published` has the
-- last snapshot first.
pub record Controller (N : Number) : Type 0 where
  pub opts : Options N
  pub prev : Option (Sample N)
  pub snap : Snapshot N
  pub encodings : List (Encoding N)
  pub published : List (Snapshot N)

-- What a tick asks of the browser: the report, `none` where `getStats` rejects, the clock, and
-- whether `setParameters` takes the encodings.
pub record Browser (N : Number) : Type 0 where
  pub report : Option (List (RtcStat N))
  pub now : N.Num
  pub accepts : List (Encoding N) → Bool

-- What a tick does with the layers.
pub data Action : Type 0 where
  tightens loosens holds : Action

module _ (N : Number) where
  -- `dt` in seconds, and 0 on the first tick.
  abbrev pub elapsed : Sample N → Option (Sample N) → N.Num
  elapsed s none = N.of_nat 0
  elapsed s (some p) =
      N.upper (N.over (N.of_nat 1) (N.of_nat 1000)) (N.over (N.minus s.t p.t) (N.of_nat 1000))

  abbrev pub observed : Sample N → Option (Sample N) → N.Num
  observed s none = N.of_nat 0
  observed s (some p) =
      if N.lt (N.of_nat 0) (elapsed s (some p))
      then N.upper (N.of_nat 0)
          (N.over (N.times (N.minus s.bytes_sent p.bytes_sent) (N.of_nat 8)) (elapsed s (some p)))
      else N.of_nat 0

  abbrev pub loss : Sample N → Option (Sample N) → N.Num
  loss s none = N.of_nat 0
  loss s (some p) =
      let lost = N.upper (N.of_nat 0) (N.minus s.packets_lost p.packets_lost) in
      let sent = N.upper (N.of_nat 0) (N.minus s.packets_sent p.packets_sent) in
      let denom = N.plus lost sent in
      if N.lt (N.of_nat 0) (elapsed s (some p)) && N.lt (N.of_nat 0) denom
      then N.times (N.over lost denom) (N.of_nat 100)
      else N.of_nat 0

  unfoldable pub total_from : N.Num → List (LayerState N) → N.Num
  total_from a [] = a
  total_from a (l ∷ ls) =
      total_from (N.plus a (if l.active then l.target_bitrate else N.of_nat 0)) ls

  unfoldable pub decide : Options N → N.Num → Option N.Num → List (LayerState N) → Action
  unfolding total_from
  decide o loss_pct none ls =
      if N.le o.high_loss_pct loss_pct
      then tightens
      else if N.lt loss_pct o.low_loss_pct
      then loosens
      else holds
  decide o loss_pct (some available) ls =
      let total = total_from (N.of_nat 0) ls in
      let headroom = N.minus available total in
      if N.le o.high_loss_pct loss_pct
      then tightens
      else if N.lt headroom (N.of_nat 0)
      then tightens
      else if N.lt loss_pct o.low_loss_pct
          && N.lt (N.times total (N.over (N.of_nat 1) (N.of_nat 5))) headroom
      then loosens
      else holds

  -- The outcome of the action and the change that it stands for.
  unfoldable pub act : Options N → Action → List (LayerState N) → Outcome N
  act o tightens ls = tighten o ls
  act o loosens ls = loosen o ls
  act o holds ls = held

  abbrev pub change_of : Action → Change
  change_of tightens = down
  change_of loosens = up
  change_of holds = hold

  abbrev pub push_one : Option (LayerState N) → Encoding N → Encoding N
  push_one none e = e
  push_one (some l) e = record e { max_bitrate = l.target_bitrate; active = l.active }

  unfoldable pub push : List (LayerState N) → List (Encoding N) → List (Encoding N)
  push ls [] = []
  push ls (e ∷ es) = push_one (find_layer e.rid ls) e ∷ push ls es

  abbrev pub publish : Snapshot N → Controller N → Controller N
  publish snap c = record c { snap = snap; published = snap ∷ c.published }

  -- The new snapshot, once the layers and the change are known.
  abbrev pub snapshot_of :
      Sample N → N.Num → N.Num → Change → List (LayerState N) → Controller N → Snapshot N
  snapshot_of s bps pct change ls c = record {
    layers = ls;
    available_bitrate = s.available_bitrate;
    observed_bps = bps;
    packet_loss_pct = pct;
    last_change = change;
    ticks = suc c.snap.ticks;
  }

  -- A sender without encodings is left alone; one that refuses them leaves the snapshot as it was.
  unfoldable pub apply_layers :
      Browser N
      → (List (LayerState N) → Snapshot N)
      → List (LayerState N)
      → List (Encoding N)
      → Controller N
      → Controller N
  unfolding push
  apply_layers b snap ls [] c = publish (snap ls) c
  apply_layers b snap ls (e ∷ es) c =
      let pushed = push ls (e ∷ es) in
      if b.accepts pushed then publish (snap ls) (record c { encodings = pushed }) else c

  -- A throw in the tick ends it, after the sample was kept.
  unfoldable pub finish :
      Browser N
      → (Change → List (LayerState N) → Snapshot N)
      → Change
      → Outcome N
      → Controller N
      → Controller N
  unfolding apply_layers
  finish b snap change passed c = publish (snap hold c.snap.layers) c
  finish b snap change held c = publish (snap hold c.snap.layers) c
  finish b snap change thrown c = c
  finish b snap change (changed ls) c = apply_layers b (snap change) ls c.encodings c

  abbrev pub action_of : Sample N → Controller N → Action
  action_of s c = decide c.opts (loss s c.prev) s.available_bitrate c.snap.layers

  abbrev pub next_snapshot : Sample N → Controller N → Change → List (LayerState N) → Snapshot N
  next_snapshot s c change ls = snapshot_of s (observed s c.prev) (loss s c.prev) change ls c

  unfoldable pub tick_with : Browser N → Option (List (RtcStat N)) → Controller N → Controller N
  unfolding collect act finish
  tick_with b none c = c
  tick_with b (some report) c =
      let s = collect N b.now report in
      finish b (next_snapshot s c) (change_of (action_of s c))
        (act c.opts (action_of s c) c.snap.layers) (record c { prev = some s })

  unfoldable pub tick : Browser N → Controller N → Controller N
  unfolding tick_with
  tick b c = tick_with b b.report c

  unfoldable pub initial_layers : List (LayerSpec N) → List (LayerState N)
  initial_layers [] = []
  initial_layers (l ∷ ls) =
      record { rid = l.rid; target_bitrate = l.initial_max_bitrate; active = true }
      ∷ initial_layers ls

  unfoldable pub initial_encodings : List (LayerSpec N) → List (Encoding N)
  initial_encodings [] = []
  initial_encodings (l ∷ ls) =
      record { rid = l.rid; max_bitrate = l.initial_max_bitrate; active = true }
      ∷ initial_encodings ls

  unfoldable pub new_controller : Options N → List (Encoding N) → Controller N
  unfolding initial_layers
  new_controller o encodings = record {
    opts = o;
    prev = none;
    snap = record {
      layers = initial_layers o.layers;
      available_bitrate = none;
      observed_bps = N.of_nat 0;
      packet_loss_pct = N.of_nat 0;
      last_change = hold;
      ticks = 0;
    };
    encodings = encodings;
    published = [];
  }

  -- `applyInitialEncodings`, whose parameters the sender takes or not.
  unfoldable pub apply_initial : (List (Encoding N) → Bool) → Controller N → Controller N
  unfolding initial_encodings
  apply_initial accepts c =
      let first = initial_encodings c.opts.layers in
      if accepts first then record c { encodings = first } else c
