-- ===== src/Sfu/Tests.antt =====
-- The theorems on sessions at concrete inputs.
use ccn.Prelude.{
  string_key, ◌≡◌, ◌≢◌, ◌↔◌, refl, true, none, some, String, [], ◌∷◌, map_get, map_has,
}
use ccn.Sfu.{SfuSession, SfuState, ensure_session, close_session, any_in, sessions_from}
use ccn.Sfu.Sessions.{Ensures, ensure_session_lem, close_session_lem, any_in_iff}

abbrev session : SfuSession
session = record {
  room_id = "den";
  send_transport = some "t1";
  recv_transport = none;
  producers = "p1" ∷ [];
  consumers = "c1" ∷ [];
}

abbrev state : SfuState
state = record { sessions = ("a", session) ∷ []; closed = [] }

moved_test : (ensure_session "a" "hall" state).0.closed ≡ "c1" ∷ "p1" ∷ "t1" ∷ []
unfolding ensure_session map_get
moved_test = refl

ensure_session_lem_test : Ensures "a" "hall" state (ensure_session "a" "hall" state)
ensure_session_lem_test = ensure_session_lem "a" "hall" state

close_session_lem_test :
    (map_get "a" (close_session "a" state).sessions ≡ none)
    × ((close_session "a" state).closed ≡ "c1" ∷ "p1" ∷ "t1" ∷ [])
    × ((other : String)
        → ◌≢◌ {A = String} "a" other
        → map_get other (close_session "a" state).sessions ≡ map_get other state.sessions)
unfolding map_get map_has
close_session_lem_test = close_session_lem "a" state session (refl, tt) refl

any_in_iff_test : (any_in "den" state.sessions ≡ true) ↔ (sessions_from "den" state.sessions ≢ [])
any_in_iff_test = any_in_iff "den" state.sessions
