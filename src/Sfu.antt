-- ===== src/Sfu.antt =====
-- backend/src/sfu/session.ts: the SFU session of each socket. Transports, producers and consumers
-- are mediasoup's, and stand here by their identifiers; `closed` has what was closed, the last last.
pub mod Sessions
mod Tests
use ccn.Prelude.{
  string_key, Bool, true, false, Option, none, some, String, List, [], ◌∷◌, ◌++◌, if◌then◌else◌,
  ◌==◌, JsMap, map_get, map_set, map_delete,
}

pub record SfuSession : Type 0 where
  pub room_id : String
  pub send_transport : Option String
  pub recv_transport : Option String
  pub producers : List String
  pub consumers : List String

pub record SfuState : Type 0 where
  pub sessions : JsMap String SfuSession
  pub closed : List String

abbrev pub new_session : String → SfuSession
new_session room_id = record {
  room_id = room_id;
  send_transport = none;
  recv_transport = none;
  producers = [];
  consumers = [];
}

abbrev pub as_list : Option String → List String
as_list none = []
as_list (some t) = t ∷ []

-- All that a session has, in the order in which it is closed.
abbrev pub resources_of : SfuSession → List String
resources_of s = s.consumers ++ s.producers ++ as_list s.send_transport ++ as_list s.recv_transport

abbrev pub get_session : String → SfuState → Option SfuSession
get_session id s = map_get id s.sessions

abbrev pub close_found : String → Option SfuSession → SfuState → SfuState
close_found id none s = s
close_found id (some session) s = record {
  sessions = map_delete id s.sessions;
  closed = s.closed ++ resources_of session;
}

-- An error of a `close` is swallowed: what was closed already stays closed.
unfoldable pub close_session : String → SfuState → SfuState
close_session id s = close_found id (map_get id s.sessions) s

abbrev pub create : String → String → SfuState → SfuState × SfuSession
create id room_id s =
    (record s { sessions = map_set id (new_session room_id) s.sessions }, new_session room_id)

abbrev pub ensure_found : String → String → Option SfuSession → SfuState → SfuState × SfuSession
ensure_found id room_id none s = create id room_id s
ensure_found id room_id (some existing) s =
    if existing.room_id == room_id
    then (s, existing)
    else create id room_id (close_found id (some existing) s)

unfoldable pub ensure_session : String → String → SfuState → SfuState × SfuSession
ensure_session id room_id s = ensure_found id room_id (map_get id s.sessions) s

unfoldable pub sessions_from : String → JsMap String SfuSession → List (String × SfuSession)
sessions_from room_id [] = []
sessions_from room_id ((id, session) ∷ m) =
    if session.room_id == room_id
    then (id, session) ∷ sessions_from room_id m
    else sessions_from room_id m

abbrev pub sessions_in_room : String → SfuState → List (String × SfuSession)
unfolding sessions_from
sessions_in_room room_id s = sessions_from room_id s.sessions

unfoldable pub any_in : String → JsMap String SfuSession → Bool
any_in room_id [] = false
any_in room_id ((id, session) ∷ m) = if session.room_id == room_id then true else any_in room_id m

abbrev pub room_has_sessions : String → SfuState → Bool
unfolding any_in
room_has_sessions room_id s = any_in room_id s.sessions
