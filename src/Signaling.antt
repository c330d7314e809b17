-- ===== src/Signaling.antt =====
-- backend/src/signaling/room.ts and relay.ts: what the server keeps of rooms and sockets, and the
-- messages it sends. The sockets and their rooms are socket.io's, so they are a parameter.
pub mod Handlers
pub mod Relay
pub mod Pairs
pub mod Steps
pub mod Gate
pub mod Entries
pub mod Lifetime
pub mod Courier
pub mod Roster
mod Tests
use ccn.Prelude.{
  string_key, ℕ, ◌≡◌, ◌≢◌, ◌⊎◌, ◌↔◌, Bool, true, false, Option, none, some, String, JsMap, map_get,
  List, [], ◌∷◌, length, In,
}
use ccn.Rooms.{RoomMode, RoomManager, new_manager}

-- What the handlers ask of socket.io. The members of a room and the rooms of a socket are sets,
-- in the order of joining; `drop` is what the library does as a socket disconnects.
pub record Sockets (S : Type 0) : Type 0 where
  pub join : String → String → S → S
  pub leave : String → String → S → S
  pub drop : String → S → S
  pub members : String → S → List String
  pub rooms_of : String → S → List String
  pub rooms : S → List String
  pub is_joined : String → String → S → Bool
  pub is_connected : String → S → Bool
  pub username : String → S → String

-- What socket.io documents of them.
pub record IsSocketIo {S : Type 0} (k : Sockets S) : Type 0 where
  pub joined_iff :
      (id room : String) (s : S) → (k.is_joined id room s ≡ true) ↔ In id (k.members room s)
  pub rooms_iff : (id room : String) (s : S) → In room (k.rooms_of id s) ↔ In id (k.members room s)
  pub join_iff :
      (id room x : String) (s : S)
      → In x (k.members room (k.join id room s)) ↔ ((x ≡ id) ⊎ In x (k.members room s))
  pub join_other :
      (id room other : String) (s : S)
      → room ≢ other
      → k.members other (k.join id room s) ≡ k.members other s
  pub leave_iff :
      (id room x : String) (s : S)
      → In x (k.members room (k.leave id room s)) ↔ (In x (k.members room s) × (x ≢ id))
  pub leave_other :
      (id room other : String) (s : S)
      → room ≢ other
      → k.members other (k.leave id room s) ≡ k.members other s
  pub drop_iff :
      (id room x : String) (s : S)
      → In x (k.members room (k.drop id s)) ↔ (In x (k.members room s) × (x ≢ id))

pub record MediaState : Type 0 where
  pub video_enabled : Bool
  pub audio_enabled : Bool

pub record RoomUser : Type 0 where
  pub id : String
  pub username : String
  pub is_video_enabled : Bool
  pub is_audio_enabled : Bool

pub record ActiveUser : Type 0 where
  pub id : String
  pub username : String

pub record Room : Type 0 where
  pub name : String
  pub has_password : Bool
  pub active_users : List ActiveUser

pub data Kind : Type 0 where
  video audio : Kind

-- The messages to clients; a description or a candidate is passed on unread.
pub data Message : Type 0 where
  join_room_error : Message
  room_mode : String → RoomMode → ℕ → Message
  fetch_active_rooms : List Room → Message
  add_new_room_user : RoomUser → Message
  fetch_room_users : List RoomUser → Message
  remove_room_user : String → Message
  media_state_change : String → Kind → Bool → Message
  offer answer candidate : (from body : String) → Message
  peer_pubkey : (from pub_key : String) → Message
  chat_message : (msg_id id username iv ct : String) (ts : ℕ) → Message

-- `socket.emit`, `io.to`, `io.to(room).except(id)` and `socket.to(room)`, `io.except`, `io.emit`.
pub data Target : Type 0 where
  one : String → Target
  in_room : String → Target
  in_room_except : (room id : String) → Target
  outside : String → Target
  everyone : Target

-- `media` is the part of `socket.data` that the handlers use; `sent` has the last message first.
pub record Server (S : Type 0) : Type 0 where
  pub sockets : S
  pub manager : RoomManager
  pub media : JsMap String MediaState
  pub sent : List (Target × Message)

abbrev pub new_server : {S : Type 0} → S → Server S
new_server s = record { sockets = s; manager = new_manager; media = []; sent = [] }

abbrev pub emit : {S : Type 0} → Target → Message → Server S → Server S
emit target message s = record s { sent = (target, message) ∷ s.sent }
