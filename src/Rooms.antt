-- ===== src/Rooms.antt =====
-- backend/src/rooms/manager.ts and backend/src/sfu/mode.ts: the mode and the password of each room.
-- The size of a room is socket.io's, and an argument here.
pub mod Trim
pub mod Mode
pub mod Password
pub mod Lifetime
mod Tests
use ccn.Prelude.{
  string_key, ℕ, zero, suc, ◌/◌, Bool, true, false, not, ◌&&◌, Option, none, some, String, JsMap,
  map_get, map_set, map_has, map_delete, List, [], if◌then◌else◌, ltb, leb, eqb, ◌==◌,
}
use Trim.{trim}

pub data RoomMode : Type 0 where
  mesh sfu : RoomMode

-- `MESH_MAX`, from the setting in thousandths: `none` where it is no finite number, or negative.
-- Only a positive setting is used, rounded down.
abbrev pub mesh_max_of : Option ℕ → ℕ
mesh_max_of none = 4
mesh_max_of (some setting) = if ltb 0 setting then setting / 1000 else 4

pub mode_for_size : ℕ → ℕ → RoomMode
mode_for_size mesh_max size = if leb mesh_max size then sfu else mesh

abbrev pub same_mode : Option RoomMode → RoomMode → Bool
same_mode (some mesh) mesh = true
same_mode (some sfu) sfu = true
same_mode _ _ = false

pub record RoomManager : Type 0 where
  pub room_mode : JsMap String RoomMode
  pub room_passwords : JsMap String String

abbrev pub new_manager : RoomManager
new_manager = record { room_mode = []; room_passwords = [] }

unfoldable pub set_room_password : String → String → RoomManager → RoomManager
set_room_password room password m =
    if trim password == ""
    then m
    else record m { room_passwords = map_set room (trim password) m.room_passwords }

abbrev pub is_string : Option String → String → Bool
is_string none s = false
is_string (some t) s = t == s

unfoldable pub check_room_password : String → Option String → RoomManager → Bool
check_room_password room password m = elim (map_get room m.room_passwords) [
  | none ↦ true
  | some stored ↦ is_string password stored
]

unfoldable pub has_room_password : String → RoomManager → Bool
has_room_password room m = map_has room m.room_passwords

unfoldable pub gc_room_password : ℕ → String → RoomManager → RoomManager
gc_room_password size room m =
    if eqb size 0 then record m { room_passwords = map_delete room m.room_passwords } else m

-- The mode that `reconcileMode` returns, the new state, and whether it announces the mode to the
-- room.
pub record Reconciled : Type 0 where
  pub mode : RoomMode
  pub manager : RoomManager
  pub announced : Bool

next_mode : ℕ → Option RoomMode → ℕ → RoomMode
unfolding mode_for_size
next_mode mesh_max (some sfu) size = sfu
next_mode mesh_max _ size = mode_for_size mesh_max size

is_some : Option RoomMode → Bool
is_some none = false
is_some (some m) = true

unfoldable pub reconcile_mode : ℕ → ℕ → String → RoomManager → Reconciled
unfolding next_mode is_some
reconcile_mode mesh_max size room m =
    if eqb size 0
    then record {
      mode = mesh;
      manager = record m { room_mode = map_delete room m.room_mode };
      announced = false;
    }
    else (let prev = map_get room m.room_mode in
        let next = next_mode mesh_max prev size in
        if same_mode prev next
        then record { mode = next; manager = m; announced = false }
        else record {
          mode = next;
          manager = record m { room_mode = map_set room next m.room_mode };
          announced = is_some prev;
        })

unfoldable pub current_mode : String → RoomManager → RoomMode
current_mode room m = elim (map_get room m.room_mode) [ none ↦ mesh | some mode ↦ mode ]
