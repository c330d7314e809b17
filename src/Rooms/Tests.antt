-- ===== src/Rooms/Tests.antt =====
-- Runs of the rooms model, and the theorems at concrete inputs.
use ccn.Prelude.{
  string_key, ℕ, ◌≡◌, ◌≢◌, ◌⊎◌, ◌↔◌, ◌<◌, ◌≤◌, refl, true, false, Option, none, some, String, [],
  ◌∷◌, map_get, map_has, arith,
}
use text.Mathlib.TextEquality.{eq_iff}
use ccn.Rooms.{
  mesh, sfu, RoomManager, new_manager, mesh_max_of, set_room_password, check_room_password,
  gc_room_password, reconcile_mode, has_room_password,
}
use ccn.Rooms.Trim.{trim}
use ccn.Rooms.Mode.{
  reconcile_all, reconcile_all-expected, reconcile_mode_empty, reconcile_mode_announced,
}
use ccn.Rooms.Password.{
  check_room_password_iff, check_room_password_untrimmed, gc_room_password_lem,
}

mesh_max_test : (mesh_max_of none ≡ 4) × (mesh_max_of (some 0) ≡ 4) × (mesh_max_of (some 2500) ≡ 2)
mesh_max_test = (refl, refl, refl)

-- Five join and two leave: the last size is three.
reconcile_all-expected_example :
    map_get "den" (reconcile_all 4 "den" (3 ∷ 4 ∷ 5 ∷ 4 ∷ 3 ∷ 2 ∷ 1 ∷ []) new_manager).room_mode
    ≡ some sfu
unfolding map_get
reconcile_all-expected_example =
    reconcile_all-expected 4 "den" (3 ∷ 4 ∷ 5 ∷ 4 ∷ 3 ∷ 2 ∷ 1 ∷ []) new_manager refl (omega arith)

abbrev one_room : RoomManager
one_room = record { room_mode = ("den", mesh) ∷ []; room_passwords = ("den", "pw") ∷ [] }

reconcile_mode_announced_example :
    ((reconcile_mode 4 4 "den" one_room).announced ≡ true)
    ↔ ((map_get "den" one_room.room_mode ≡ some mesh) × (0 < 4) × (4 ≤ 4))
reconcile_mode_announced_example = reconcile_mode_announced 4 4 "den" one_room

reconcile_mode_empty_example :
    (map_get "den" (reconcile_mode 4 0 "den" one_room).manager.room_mode ≡ none)
    × ((reconcile_mode 4 0 "den" one_room).announced ≡ false)
unfolding map_has
reconcile_mode_empty_example = reconcile_mode_empty 4 "den" one_room (refl, tt)

check_room_password_iff_example : (check_room_password "den" (some "pw") one_room ≡ true) ↔ (
    (has_room_password "den" one_room ≡ false)
    ⊎ (map_get "den" one_room.room_passwords ≡ some "pw"))
check_room_password_iff_example = check_room_password_iff "den" (some "pw") one_room

differ : ◌≢◌ {A = String} "pw" " pw"
differ e = let same = (eq_iff "pw" " pw").1 e in cc

filled : ◌≢◌ {A = String} "pw" ""
filled e = let same = (eq_iff "pw" "").1 e in cc

check_room_password_untrimmed_example :
    check_room_password "den" (some " pw") (set_room_password "den" " pw" new_manager) ≡ false
unfolding trim
check_room_password_untrimmed_example =
    check_room_password_untrimmed "den" " pw" new_manager filled differ

gc_room_password_lem_test :
    (◌≡◌ {A = ℕ} 0 0
      → (given : Option String)
      → check_room_password "den" given (gc_room_password 0 "den" one_room) ≡ true)
    × (◌≢◌ {A = ℕ} 0 0 → gc_room_password 0 "den" one_room ≡ one_room)
    × ((other : String)
        → ◌≢◌ {A = String} "den" other
        → map_get other (gc_room_password 0 "den" one_room).room_passwords
          ≡ map_get other one_room.room_passwords)
unfolding map_has
gc_room_password_lem_test = gc_room_password_lem 0 "den" one_room (refl, tt)
