-- ===== src/Signaling/Handlers.antt =====
-- backend/src/signaling/room.ts: the handlers of one connection, and `getAllRooms` of manager.ts.
-- A payload that its schema refuses is `none`. A handler runs to its end before the next starts.
use ccn.Prelude.{
  string_key, ℕ, Bool, true, Option, none, some, String, map_get, map_set, List, [], ◌∷◌, map,
  length, if◌then◌else◌, ◌==◌,
}
use ccn.Rooms.{
  RoomMode, set_room_password, check_room_password, has_room_password, gc_room_password,
  reconcile_mode,
}
use ccn.Signaling.{
  Sockets, MediaState, RoomUser, ActiveUser, Room, Kind, video, audio, join_room_error, room_mode,
  fetch_active_rooms, add_new_room_user, fetch_room_users, remove_room_user, media_state_change,
  offer, answer, candidate, one, in_room, in_room_except, outside, everyone, Server, emit,
}

-- The two shapes of `JoinRoomPayload`, and `CreateRoomPayload`.
pub record RoomRequest : Type 0 where
  pub room_name : String
  pub password : Option String

pub data JoinRoom : Type 0 where
  bare : String → JoinRoom
  request : RoomRequest → JoinRoom

abbrev pub room_name_of : JoinRoom → String
room_name_of (bare name) = name
room_name_of (request r) = r.room_name

abbrev pub password_of : JoinRoom → Option String
password_of (bare name) = none
password_of (request r) = r.password

abbrev pub media_of : Option MediaState → MediaState
media_of none = record { video_enabled = true; audio_enabled = true }
media_of (some m) = m

module _ {S : Type 0} (k : Sockets S) where
  abbrev pub user_of : String → Server S → RoomUser
  user_of id s = record {
    id = id;
    username = k.username id s.sockets;
    is_video_enabled = (media_of (map_get id s.media)).video_enabled;
    is_audio_enabled = (media_of (map_get id s.media)).audio_enabled;
  }

  unfoldable pub peers_of : String → List String → Server S → List RoomUser
  peers_of id [] s = []
  peers_of id (c ∷ cs) s =
      if c == id
      then peers_of id cs s
      else if k.is_connected c s.sockets
      then user_of c s ∷ peers_of id cs s
      else peers_of id cs s

  unfoldable pub emit_room_roster : String → String → Server S → Server S
  emit_room_roster id room s =
      emit (one id) (fetch_room_users (peers_of id (k.members room s.sockets) s))
        (emit (in_room_except room id) (add_new_room_user (user_of id s)) s)

  abbrev pub active_user : Server S → String → ActiveUser
  active_user s id = record { id = id; username = k.username id s.sockets }

  unfoldable pub all_rooms : List String → Server S → List Room
  all_rooms [] s = []
  all_rooms (room ∷ rooms) s =
      if k.is_connected room s.sockets
      then all_rooms rooms s
      else record {
        name = room;
        has_password = has_room_password room s.manager;
        active_users = map (active_user s) (k.members room s.sockets);
      }
        ∷ all_rooms rooms s

  unfoldable pub get_all_rooms : Server S → List Room
  unfolding all_rooms
  get_all_rooms s = all_rooms (k.rooms s.sockets) s

  abbrev pub room_size : String → Server S → ℕ
  room_size room s = length (k.members room s.sockets)

  -- `reconcileMode` with the size of the room and its message to the room.
  unfoldable pub reconcile : ℕ → String → Server S → RoomMode × Server S
  reconcile mesh_max room s =
      let r = reconcile_mode mesh_max (room_size room s) room s.manager in
      let t = record s { manager = r.manager } in
      (
        r.mode,
        if r.announced then emit (in_room room) (room_mode room r.mode (room_size room s)) t else t,
      )

  unfoldable pub gc : String → Server S → Server S
  gc room s = record s { manager = gc_room_password (room_size room s) room s.manager }

  -- The part that `join room` and `create room` share: the socket joins, and is told the mode.
  unfoldable pub enter : ℕ → String → String → Server S → Server S
  unfolding reconcile
  enter mesh_max id room s =
      let (mode, t) = reconcile mesh_max room (record s { sockets = k.join id room s.sockets }) in
      emit (one id) (room_mode room mode (room_size room t)) t

  unfoldable pub register : String → Server S → Server S
  register id s = record s { media = map_set id (media_of none) s.media }

  unfoldable pub join_room : ℕ → String → Option JoinRoom → Server S → Server S
  unfolding enter emit_room_roster get_all_rooms
  join_room mesh_max id none s = s
  join_room mesh_max id (some payload) s =
      let room = room_name_of payload in
      let t = enter mesh_max id room s in
      if check_room_password room (password_of payload) s.manager
      then emit_room_roster id room (emit (outside room) (fetch_active_rooms (get_all_rooms t)) t)
      else emit (one id) join_room_error s

  abbrev pub protect : RoomRequest → Server S → Server S
  protect r s = elim r.password [
    | none ↦ s
    | some password ↦ record s { manager = set_room_password r.room_name password s.manager }
  ]

  unfoldable pub create_room : ℕ → String → Option RoomRequest → Server S → Server S
  unfolding enter emit_room_roster get_all_rooms
  create_room mesh_max id none s = s
  create_room mesh_max id (some r) s =
      let t = enter mesh_max id r.room_name (protect r s) in
      emit_room_roster id r.room_name (emit everyone (fetch_active_rooms (get_all_rooms t)) t)

  abbrev pub set_media : Kind → Bool → MediaState → MediaState
  set_media video enabled m = record m { video_enabled = enabled }
  set_media audio enabled m = record m { audio_enabled = enabled }

  unfoldable pub change_media : String → Option (String × Kind × Bool) → Server S → Server S
  change_media id none s = s
  change_media id (some (room, kind, enabled)) s =
      emit (in_room_except room id) (media_state_change id kind enabled) (record s {
        media = map_set id (set_media kind enabled (media_of (map_get id s.media))) s.media;
      })

  unfoldable pub send_offer : String → Option (String × String) → Server S → Server S
  send_offer id none s = s
  send_offer id (some (to, body)) s =
      if k.is_connected to s.sockets then emit (one to) (offer id body) s else s

  unfoldable pub send_answer : String → Option (String × String) → Server S → Server S
  send_answer id none s = s
  send_answer id (some (to, body)) s = emit (in_room to) (answer id body) s

  unfoldable pub send_candidate : String → Option (String × String) → Server S → Server S
  send_candidate id none s = s
  send_candidate id (some (to, body)) s = emit (in_room to) (candidate id body) s

  unfoldable pub send_rooms : Server S → Server S
  unfolding get_all_rooms
  send_rooms s = emit everyone (fetch_active_rooms (get_all_rooms s)) s

  unfoldable pub collect : ℕ → String → Server S → Server S
  unfolding reconcile gc
  collect mesh_max room s = gc room (reconcile mesh_max room s).1

  -- The payload is optional: `some none` is the message without a room, which is ignored.
  unfoldable pub leave_room : ℕ → String → Option (Option String) → Server S → Server S
  unfolding collect send_rooms
  leave_room mesh_max id none s = s
  leave_room mesh_max id (some none) s = s
  leave_room mesh_max id (some (some room)) s =
      let t = emit (in_room_except room id) (remove_room_user id) s in
      send_rooms (
        if k.is_joined id room s.sockets
        then collect mesh_max room (record t { sockets = k.leave id room s.sockets })
        else s)

  unfoldable pub say_goodbye : String → List String → Server S → Server S
  say_goodbye id [] s = s
  say_goodbye id (room ∷ rooms) s =
      if room == id
      then say_goodbye id rooms s
      else say_goodbye id rooms (emit (in_room_except room id) (remove_room_user id) s)

  unfoldable pub collect_all : ℕ → String → List String → Server S → Server S
  unfolding collect
  collect_all mesh_max id [] s = s
  collect_all mesh_max id (room ∷ rooms) s =
      if room == id
      then collect_all mesh_max id rooms s
      else collect_all mesh_max id rooms (collect mesh_max room s)

  -- `disconnecting`, the removal of the socket, `disconnect`, and then the deferred calls.
  unfoldable pub disconnect : ℕ → String → Server S → Server S
  unfolding say_goodbye collect_all send_rooms
  disconnect mesh_max id s =
      let rooms = k.rooms_of id s.sockets in
      let t = say_goodbye id rooms s in
      collect_all mesh_max id rooms (send_rooms (record t { sockets = k.drop id s.sockets }))
