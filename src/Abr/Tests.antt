-- ===== src/Abr/Tests.antt =====
-- Runs of the bit rate controller, and its theorems at concrete inputs.
use ccn.Prelude.{
  string_key, ℕ, ◌*◌, ◌≡◌, refl, Bool, true, false, Option, none, some, String, List, [], ◌∷◌, map,
  All, map_get, map_set,
}
use ccn.Number.Thousandths.{thousandths, thousandths-Laws}
use ccn.Abr.{LayerSpec, LayerState, Options, passed, held, tighten, loosen, find_layer}
use ccn.Abr.Stats.{RtcStat}
use ccn.Abr.Controller.{Browser, Controller, Encoding, new_controller, apply_initial, decide}
use ccn.Abr.Bounds.{IsBounded, run, run-IsBounded}
use ccn.Abr.Agreement.{Agrees, Follows, find_layer-Follows, run-Agrees}
use ccn.Abr.Floor.{IsOff, AtFloor, tighten-hold}

abbrev spec_of : String → ℕ → ℕ → ℕ → LayerSpec thousandths
spec_of rid initial low high = record {
  rid = rid;
  initial_max_bitrate = initial * 1000;
  min_bitrate = low * 1000;
  max_bitrate = high * 1000;
}

-- `DEFAULT_LAYERS` and the other defaults.
abbrev default_options : Options thousandths
default_options = record {
  layers =
      spec_of "l" 150000 80000 250000
      ∷ spec_of "m" 500000 200000 800000
      ∷ spec_of "h" 1500000 500000 2500000
      ∷ [];
  decrease_factor = 600;
  increase_step = 100000000;
  high_loss_pct = 5000;
  low_loss_pct = 2000;
}

abbrev started : Controller thousandths
started = apply_initial thousandths (λ es. true) (new_controller thousandths default_options [])

-- A report whose selected pair has the bit rate, and a sender that takes all parameters, or none.
abbrev stat : String → String → Option String → Option ℕ → RtcStat thousandths
stat type id selected available = record {
  type = type;
  id = id;
  kind = none;
  is_remote = false;
  bytes_sent = none;
  packets_sent = none;
  packets_lost = none;
  selected_pair = selected;
  nominated = false;
  state = none;
  available_bitrate = available;
}

abbrev with_rate : ℕ → Bool → Browser thousandths
with_rate available accepted = record {
  report = some (
      stat "transport" "t" (some "p") none
      ∷ stat "candidate-pair" "p" none (some (available * 1000))
      ∷ []);
  now = 2000000;
  accepts = λ es. accepted;
}

abbrev two_ticks : List (Browser thousandths)
two_ticks = with_rate 4000000 true ∷ with_rate 4000000 false ∷ []

targets_test : (run (with_rate 4000000 true ∷ []) started).encodings ≡ (
    record { rid = "l"; max_bitrate = 150000000; active = true }
    ∷ record { rid = "m"; max_bitrate = 500000000; active = true }
    ∷ record { rid = "h"; max_bitrate = 1600000000; active = true }
    ∷ [])
unfolding run apply_initial new_controller map_get map_set loosen decide
targets_test = refl

started-IsBounded : IsBounded started
unfolding apply_initial new_controller
started-IsBounded = (
  (
    (spec_of "l" 150000 80000 250000, refl, refl, refl),
    (
      (spec_of "m" 500000 200000 800000, refl, refl, refl),
      ((spec_of "h" 1500000 500000 2500000, refl, refl, refl), tt),
    ),
  ),
  refl,
)

run-IsBounded_example : IsBounded (run two_ticks started)
run-IsBounded_example = run-IsBounded thousandths-Laws two_ticks started started-IsBounded

abbrev layer_of : LayerSpec thousandths → LayerState thousandths
layer_of s = record { rid = s.rid; target_bitrate = s.initial_max_bitrate; active = true }

abbrev encoding_of : LayerSpec thousandths → Encoding thousandths
encoding_of s = record { rid = s.rid; max_bitrate = s.initial_max_bitrate; active = true }

started-Agrees : Agrees started
unfolding apply_initial new_controller
started-Agrees = (
  follows (spec_of "l" 150000 80000 250000) refl,
  (
    follows (spec_of "m" 500000 200000 800000) refl,
    (follows (spec_of "h" 1500000 500000 2500000) refl, tt),
  ),
)
  where
    follows :
        (s : LayerSpec thousandths)
        → find_layer s.rid (map layer_of default_options.layers) ≡ some (layer_of s)
        → Follows (map layer_of default_options.layers) (encoding_of s)
    follows s e =
        find_layer-Follows (map layer_of default_options.layers) (encoding_of s) (layer_of s) e refl
          refl

run-Agrees_example : Agrees (run two_ticks started)
run-Agrees_example = run-Agrees two_ticks started started-Agrees

abbrev low : LayerState thousandths
low = record { rid = "l"; target_bitrate = 80000000; active = true }

abbrev top : LayerState thousandths
top = record { rid = "m"; target_bitrate = 200000000; active = false }

tighten-hold_test :
    ((tighten default_options (low ∷ top ∷ []) ≡ held)
      → (low.active ≡ true) × AtFloor default_options low × All (IsOff default_options) (top ∷ []))
    × ((tighten default_options (low ∷ top ∷ []) ≡ passed)
        → All (IsOff default_options) (low ∷ top ∷ []))
tighten-hold_test = tighten-hold default_options low (top ∷ [])
