-- ===== src/Rooms/Lifetime.antt =====
-- The entries of a room live as long as the room: `Kept n r m` says so of the room `r`, which has
-- `n` members.
use ccn.Prelude.{
  JsMap, string_key, ℕ, zero, suc, ◌<◌, ◌≡◌, ◌≢◌, ◌⊎◌, refl, inl, inr, true, false, String, map_get,
  map_set, map_has, arith, ◌==◌, Bool-cases, IsDistinct, map_has-set, map_has-delete_ne,
  map_has-delete_self, map_set-IsDistinct, map_delete-IsDistinct,
}
use text.Mathlib.TextEquality.{eq_iff}
use ccn.Rooms.Trim.{trim}
use ccn.Rooms.{RoomManager, set_room_password, gc_room_password, reconcile_mode, next_mode}

abbrev pub AreDistinct : RoomManager → Type 0
AreDistinct m = IsDistinct m.room_mode × IsDistinct m.room_passwords

abbrev pub HasEntry : String → RoomManager → Type 0
HasEntry r m = (map_has r m.room_mode ≡ true) ⊎ (map_has r m.room_passwords ≡ true)

abbrev pub Kept : ℕ → String → RoomManager → Type 0
Kept n r m = HasEntry r m → 0 < n

pub reconcile_mode-AreDistinct :
    (mesh_max size : ℕ) (room : String) (m : RoomManager)
    → AreDistinct m
    → AreDistinct (reconcile_mode mesh_max size room m).manager
unfolding reconcile_mode
reconcile_mode-AreDistinct mesh_max size room m (d, e) = ground (
  arith,
  map_delete-IsDistinct room m.room_mode d,
  map_set-IsDistinct room (next_mode mesh_max (map_get room m.room_mode) size) m.room_mode d,
)

pub gc_room_password-AreDistinct :
    (size : ℕ) (room : String) (m : RoomManager)
    → AreDistinct m
    → AreDistinct (gc_room_password size room m)
unfolding gc_room_password
gc_room_password-AreDistinct size room m (d, e) =
    ground (arith, map_delete-IsDistinct room m.room_passwords e)

pub set_room_password-AreDistinct :
    (room password : String) (m : RoomManager)
    → AreDistinct m
    → AreDistinct (set_room_password room password m)
unfolding set_room_password
set_room_password-AreDistinct room password m (d, e) = elim (Bool-cases (trim password == "")) [
  | inl t ↦ rw t (d, e)
  | inr t ↦ rw t (d, map_set-IsDistinct room (trim password) m.room_passwords e)
]

-- Another room's entries stay as they are.
has-set_ne :
    {V : Type 0} (room r : String) (v : V) (m : JsMap String V)
    → room ≢ r
    → map_has r (map_set room v m) ≡ map_has r m
has-set_ne room r v m h =
    let differ : (room == r) ≡ false = ground (arith, eq_iff room r) in
    rw (map_has-set room r v m) (rw differ refl)

reconcile_mode_other :
    (mesh_max size : ℕ) (room r : String) (m : RoomManager)
    → room ≢ r
    → map_has r (reconcile_mode mesh_max size room m).manager.room_mode ≡ map_has r m.room_mode
unfolding reconcile_mode
reconcile_mode_other mesh_max size room r m h = ground (
  arith,
  has-set_ne room r (next_mode mesh_max (map_get room m.room_mode) size) m.room_mode h,
  map_has-delete_ne room r m.room_mode h,
)

pub reconcile_mode-passwords :
    (mesh_max size : ℕ) (room : String) (m : RoomManager)
    → (reconcile_mode mesh_max size room m).manager.room_passwords ≡ m.room_passwords
unfolding reconcile_mode
reconcile_mode-passwords mesh_max size room m = ground arith

reconcile_mode_gone :
    (mesh_max : ℕ) (room : String) (m : RoomManager)
    → AreDistinct m
    → map_has room (reconcile_mode mesh_max 0 room m).manager.room_mode ≡ false
unfolding reconcile_mode
reconcile_mode_gone mesh_max room m (d, e) = map_has-delete_self room m.room_mode d

pub reconcile_mode-Kept :
    (mesh_max size n : ℕ) (room r : String) (m : RoomManager)
    → (room ≡ r → 0 < n)
    → Kept n r m
    → Kept n r (reconcile_mode mesh_max size room m).manager
reconcile_mode-Kept mesh_max size n room r m h k = ground (
  arith,
  eq_iff room r,
  reconcile_mode_other mesh_max size room r m,
  reconcile_mode-passwords mesh_max size room m,
)

pub set_room_password-Kept :
    (n : ℕ) (room password r : String) (m : RoomManager)
    → (room ≡ r → 0 < n)
    → Kept n r m
    → Kept n r (set_room_password room password m)
unfolding set_room_password
set_room_password-Kept n room password r m h k =
    ground (arith, eq_iff room r, has-set_ne room r (trim password) m.room_passwords)

gc_room_password_other :
    (size : ℕ) (room r : String) (m : RoomManager)
    → room ≢ r
    → map_has r (gc_room_password size room m).room_passwords ≡ map_has r m.room_passwords
unfolding gc_room_password
gc_room_password_other size room r m h = ground (arith, map_has-delete_ne room r m.room_passwords h)

gc_room_password_gone :
    (room : String) (m : RoomManager)
    → AreDistinct m
    → map_has room (gc_room_password 0 room m).room_passwords ≡ false
unfolding gc_room_password
gc_room_password_gone room m (d, e) = map_has-delete_self room m.room_passwords e

gc_room_password-mode :
    (size : ℕ) (room : String) (m : RoomManager)
    → (gc_room_password size room m).room_mode ≡ m.room_mode
unfolding gc_room_password
gc_room_password-mode size room m = ground arith

-- After `reconcileMode` and `gcRoomPassword` on one room, its entries are kept, whatever they were.
pub collect-Kept :
    (mesh_max n : ℕ) (room : String) (m : RoomManager)
    → AreDistinct m
    → Kept n room (gc_room_password n room (reconcile_mode mesh_max n room m).manager)
collect-Kept mesh_max zero room m d = ground (
  arith,
  gc_room_password_gone room (reconcile_mode mesh_max 0 room m).manager
      (reconcile_mode-AreDistinct mesh_max 0 room m d),
  gc_room_password-mode 0 room (reconcile_mode mesh_max 0 room m).manager,
  reconcile_mode_gone mesh_max room m d,
)
collect-Kept mesh_max (suc n) room m d = λ e. omega arith

pub collect-Kept_other :
    (mesh_max size n : ℕ) (room r : String) (m : RoomManager)
    → room ≢ r
    → Kept n r m
    → Kept n r (gc_room_password size room (reconcile_mode mesh_max size room m).manager)
collect-Kept_other mesh_max size n room r m h k = ground (
  arith,
  gc_room_password_other size room r (reconcile_mode mesh_max size room m).manager h,
  gc_room_password-mode size room (reconcile_mode mesh_max size room m).manager,
  reconcile_mode_other mesh_max size room r m h,
  reconcile_mode-passwords mesh_max size room m,
)
