-- ===== src/Abr.antt =====
-- frontend/src/lib/abr/abr.ts: the ladder of layers of a video sender, and the two ways a tick
-- changes it. Bit rates are numbers of JavaScript.
pub mod Stats
pub mod Controller
pub mod Steps
pub mod Bounds
pub mod Agreement
pub mod Floor
mod Tests
use ccn.Prelude.{
  string_key, ℕ, Bool, true, false, Option, none, some, String, List, [], ◌∷◌, map, if◌then◌else◌,
  ◌==◌,
}
use ccn.Number.{Number}

pub record LayerSpec (N : Number) : Type 0 where
  pub rid : String
  pub initial_max_bitrate : N.Num
  pub min_bitrate : N.Num
  pub max_bitrate : N.Num

pub record LayerState (N : Number) : Type 0 where
  pub rid : String
  pub target_bitrate : N.Num
  pub active : Bool

pub record Options (N : Number) : Type 0 where
  pub layers : List (LayerSpec N)
  pub decrease_factor : N.Num
  pub increase_step : N.Num
  pub high_loss_pct : N.Num
  pub low_loss_pct : N.Num

-- What a loop over the layers ends with: it found no layer to change and went on, it changed the
-- layers, it returned "hold", or it threw, as no layer of that name has a specification.
pub data Outcome (N : Number) : Type 0 where
  passed held thrown : Outcome N
  changed : List (LayerState N) → Outcome N

abbrev pub find_spec : {N : Number} → String → List (LayerSpec N) → Option (LayerSpec N)
find_spec rid [] = none
find_spec rid (s ∷ ss) = if s.rid == rid then some s else find_spec rid ss

abbrev pub find_layer : {N : Number} → String → List (LayerState N) → Option (LayerState N)
find_layer rid [] = none
find_layer rid (l ∷ ls) = if l.rid == rid then some l else find_layer rid ls

module _ {N : Number} (o : Options N) where
  -- `next` of `tighten` and of `loosen`.
  abbrev pub lowered : LayerSpec N → LayerState N → N.Num
  lowered spec l = N.upper spec.min_bitrate (N.floor (N.times l.target_bitrate o.decrease_factor))

  abbrev pub raised : LayerSpec N → LayerState N → N.Num
  raised spec l = N.lower spec.max_bitrate (N.plus l.target_bitrate o.increase_step)

  -- One layer of `tighten` with its specification; `is_lowest` is `i > 0` the other way round.
  abbrev pub cut_to : Option (LayerSpec N) → Bool → LayerState N → List (LayerState N) → Outcome N
  cut_to none is_lowest l ls = thrown
  cut_to (some spec) is_lowest l ls =
      if N.lt (lowered spec l) l.target_bitrate
      then changed (record l { target_bitrate = lowered spec l } ∷ ls)
      else if is_lowest
      then held
      else changed (record l { active = false } ∷ ls)

  unfoldable pub cut : Bool → LayerState N → List (LayerState N) → Outcome N
  cut is_lowest l ls = cut_to (find_spec l.rid o.layers) is_lowest l ls

  -- The loop runs from the last layer to the first.
  unfoldable pub tighten_from : Bool → List (LayerState N) → Outcome N
  unfolding cut
  tighten_from is_lowest [] = passed
  tighten_from is_lowest (l ∷ ls) = elim (tighten_from false ls) [
    | passed ↦ if l.active then cut is_lowest l ls else passed
    | held ↦ held
    | thrown ↦ thrown
    | changed ls' ↦ changed (l ∷ ls')
  ]

  unfoldable pub tighten : List (LayerState N) → Outcome N
  unfolding tighten_from
  tighten ls = tighten_from true ls

  unfoldable pub reactivate : List (LayerState N) → Outcome N
  reactivate [] = passed
  reactivate (l ∷ ls) =
      let rest = reactivate ls in
      if l.active
      then elim rest [
        | passed ↦ passed
        | held ↦ held
        | thrown ↦ thrown
        | changed ls' ↦ changed (l ∷ ls')
      ]
      else changed (record l { active = true } ∷ ls)

  abbrev pub nudge_to : Option (LayerSpec N) → LayerState N → List (LayerState N) → Outcome N
  nudge_to none l ls = thrown
  nudge_to (some spec) l ls =
      if N.lt l.target_bitrate (raised spec l)
      then changed (record l { target_bitrate = raised spec l } ∷ ls)
      else passed

  unfoldable pub nudge : LayerState N → List (LayerState N) → Outcome N
  nudge l ls = nudge_to (find_spec l.rid o.layers) l ls

  unfoldable pub raise : List (LayerState N) → Outcome N
  unfolding nudge
  raise [] = passed
  raise (l ∷ ls) = elim (raise ls) [
    | passed ↦ nudge l ls
    | held ↦ held
    | thrown ↦ thrown
    | changed ls' ↦ changed (l ∷ ls')
  ]

  unfoldable pub loosen : List (LayerState N) → Outcome N
  unfolding reactivate raise
  loosen ls = elim (reactivate ls) [
    | passed ↦ raise ls
    | held ↦ held
    | thrown ↦ thrown
    | changed ls' ↦ changed ls'
  ]
