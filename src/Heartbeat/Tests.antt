-- ===== src/Heartbeat/Tests.antt =====
-- Runs of the heartbeat model, and the theorems at concrete inputs.
use ccn.Prelude.{
  nat_key, string_key, ◌↔◌, ◌<◌, ℕ, ◌*◌, ◌≤◌, ◌≡◌, refl, Bool, true, false, List, [], ◌∷◌, none,
  map_get, map_set, map_has, arith,
}
use ccn.Heartbeat.{
  unhealthy, stale, dead, default_options, PendingPing, PeerEntry, HeartbeatIo, Tracker, hb_pong,
  new_tracker, handle_pong, tick_entry, new_entry,
}
use ccn.Heartbeat.Thresholds.{IsOrdered, adds, pongs, ticks, run, IsConsistent, run-IsConsistent}
use ccn.Heartbeat.Pongs.{handle_pong_answered, handle_pong_twice}
use ccn.Heartbeat.Alarms.{tick_entry_alarm, rounds, rounds-le_one, rounds_unwritable}

default_options-IsOrdered : IsOrdered default_options
default_options-IsOrdered = omega arith

-- A channel is open or not; the clock is read every second.
abbrev link : HeartbeatIo Bool
link = record { write = λ is_open id t. is_open; now = λ n. n * 1000 }

run-IsConsistent_example : IsConsistent (
    run
      (adds "bob" true ∷ ticks link ∷ ticks link ∷ pongs 9000 "bob" (hb_pong 1 0) ∷ [])
      (new_tracker default_options))
run-IsConsistent_example =
    run-IsConsistent default_options
      (adds "bob" true ∷ ticks link ∷ ticks link ∷ pongs 9000 "bob" (hb_pong 1 0) ∷ [])
      default_options-IsOrdered

abbrev first_ping : PendingPing
first_ping = record { id = 1; sent_at = 1000 }

abbrev waiting : PeerEntry Bool
waiting = record {
  state = record { rtt_ms = none; last_pong_at = none; consecutive_misses = 2; status = stale };
  sender = true;
  pending = (1, first_ping) ∷ [];
  next_ping_id = 2;
  unhealthy_fired = false;
}

abbrev tracked : Tracker Bool
tracked = record {
  opts = default_options;
  peers = ("bob", waiting) ∷ [];
  subs = 0;
  published = [];
  alarms = [];
  clock = 0;
}

handle_pong_answered_test : (handle_pong 1250 "bob" (hb_pong 1 1000) tracked).1 ≡ true
unfolding map_get
handle_pong_answered_test =
    (handle_pong_answered 1250 "bob" 1 1000 tracked waiting first_ping refl refl).0

handle_pong_twice_test :
    handle_pong 1300 "bob" (hb_pong 1 1000) (handle_pong 1250 "bob" (hb_pong 1 1000) tracked).0
    ≡ ((handle_pong 1250 "bob" (hb_pong 1 1000) tracked).0, false)
unfolding map_get map_has
handle_pong_twice_test =
    handle_pong_twice 1250 1300 "bob" 1 1000 tracked waiting first_ping refl refl (refl, tt)

tick_entry_alarm_example :
    (tick_entry link default_options 6000 6000 waiting).0.unhealthy_fired ≡ true
unfolding tick_entry map_set
tick_entry_alarm_example = (tick_entry_alarm link default_options 6000 6000 waiting refl).3

rounds-le_one_example :
    (rounds link default_options ((6000, 6000) ∷ (11_000, 11_000) ∷ []) waiting).1 ≤ 1
rounds-le_one_example =
    rounds-le_one link default_options ((6000, 6000) ∷ (11_000, 11_000) ∷ []) waiting

-- Seven rounds on a closed channel: dead, with no alarm.
abbrev seven : List (ℕ × ℕ)
seven = (0, 0) ∷ (5, 5) ∷ (10, 10) ∷ (15, 15) ∷ (20, 20) ∷ (25, 25) ∷ (30, 30) ∷ []

rounds_unwritable_example :
    let r = rounds link default_options seven (new_entry false) in
    (r.1 ≡ 0)
    × (r.0.state.consecutive_misses ≡ 7)
    × (r.0.unhealthy_fired ≡ false)
    × ((r.0.state.status ≡ dead) ↔ (6 ≤ 7))
    × ((r.0.state.status ≡ unhealthy) ↔ ((3 ≤ 7) × (7 < 6)))
unfolding new_entry
rounds_unwritable_example =
    rounds_unwritable link default_options seven (new_entry false) (λ id t. refl) refl (λ e. cc)

silent_death : (rounds link default_options seven (new_entry false)).0.state.status ≡ dead
unfolding rounds tick_entry new_entry
silent_death = refl
