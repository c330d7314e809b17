-- ===== src/Rooms/Mode.antt =====
-- The mode of a room is a ratchet: it reaches `sfu` and stays there until the room is empty.
use ccn.Prelude.{
  ◌||◌, ap, string_key, ℕ, ◌≤◌, ◌<◌, ◌≡◌, ◌↔◌, refl, ◌∙◌, inl, inr, Bool, true, false, List, [],
  ◌∷◌, Option, none, some, String, map_get, if◌then◌else◌, leb, eqb, arith, Bool-cases,
  map_get-set_self, map_get-delete_self, IsDistinct, All,
}
use ccn.Rooms.{
  RoomMode, mesh, sfu, RoomManager, reconcile_mode, mode_for_size, next_mode, is_some, same_mode,
}

-- The calls for one room, at the sizes that it has from one call to the next, the last one first.
pub reconcile_all : ℕ → String → List ℕ → RoomManager → RoomManager
reconcile_all mesh_max room [] m = m
reconcile_all mesh_max room (n ∷ ns) m =
    (reconcile_mode mesh_max n room (reconcile_all mesh_max room ns m)).manager

-- Whether some size needs the SFU.
abbrev pub is_reached : ℕ → List ℕ → Bool
is_reached mesh_max [] = false
is_reached mesh_max (n ∷ ns) = leb mesh_max n || is_reached mesh_max ns

-- The mode that a room should have after such a history.
abbrev pub expected_mode : ℕ → List ℕ → Option RoomMode
expected_mode mesh_max [] = none
expected_mode mesh_max (n ∷ ns) = some (if is_reached mesh_max (n ∷ ns) then sfu else mesh)

reconcile_mode-get :
    (mesh_max n : ℕ) (room : String) (m : RoomManager)
    → 0 < n
    → map_get room (reconcile_mode mesh_max n room m).manager.room_mode
      ≡ some (next_mode mesh_max (map_get room m.room_mode) n)
unfolding reconcile_mode
reconcile_mode-get mesh_max n room m h =
    let open_room : eqb n 0 ≡ false = ground arith in
    rw open_room (elim (Bool-cases (same_mode prev (next_mode mesh_max prev n))) [
      | inl e ↦ rw e (same_mode-eq prev _ e)
      | inr e ↦ rw e (map_get-set_self room _ m.room_mode)
    ])
  where
    prev : Option RoomMode
    prev = map_get room m.room_mode

    same_mode-eq : (p : Option RoomMode) (q : RoomMode) → same_mode p q ≡ true → p ≡ some q
    same_mode-eq p q e = ground arith

next_mode-expected :
    (mesh_max n : ℕ) (ns : List ℕ)
    → some (next_mode mesh_max (expected_mode mesh_max ns) n) ≡ expected_mode mesh_max (n ∷ ns)
unfolding next_mode mode_for_size
next_mode-expected mesh_max n [] = ground arith
next_mode-expected mesh_max n (k ∷ ns) = ground arith

-- While the room is not empty, its mode after any history of sizes is `sfu` exactly where one of
-- the sizes reached the threshold, whatever the sizes since; it is undefined before the first call.
pub reconcile_all-expected :
    (mesh_max : ℕ) (room : String) (ns : List ℕ) (m : RoomManager)
    → map_get room m.room_mode ≡ none
    → All (λ n. 0 < n) ns
    → map_get room (reconcile_all mesh_max room ns m).room_mode ≡ expected_mode mesh_max ns
unfolding reconcile_all
reconcile_all-expected mesh_max room [] m h k = h
reconcile_all-expected mesh_max room (n ∷ ns) m h (p, k) =
    reconcile_mode-get mesh_max n room (reconcile_all mesh_max room ns m) p
    ∙ ap (λ t. some (next_mode mesh_max t n)) (reconcile_all-expected mesh_max room ns m h k)
    ∙ next_mode-expected mesh_max n ns

-- The last peer's leaving forgets the mode, so that the next peer starts in `mesh` again.
pub reconcile_mode_empty :
    (mesh_max : ℕ) (room : String) (m : RoomManager)
    → IsDistinct m.room_mode
    → (map_get room (reconcile_mode mesh_max 0 room m).manager.room_mode ≡ none)
      × ((reconcile_mode mesh_max 0 room m).announced ≡ false)
unfolding reconcile_mode
reconcile_mode_empty mesh_max room m d = (map_get-delete_self room m.room_mode d, refl)

-- The mode is announced exactly where a room that had a mode gets another one, and that is the step
-- from `mesh` to `sfu`.
pub reconcile_mode_announced :
    (mesh_max size : ℕ) (room : String) (m : RoomManager)
    → ((reconcile_mode mesh_max size room m).announced ≡ true)
      ↔ ((map_get room m.room_mode ≡ some mesh) × (0 < size) × (mesh_max ≤ size))
unfolding reconcile_mode next_mode mode_for_size is_some
reconcile_mode_announced mesh_max size room m = ground arith
