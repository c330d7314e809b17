-- ===== src/Signaling/Roster.antt =====
-- What a socket that joins is told of the room.
use ccn.Prelude.{
  string_key, ℕ, ◌≡◌, ◌≢◌, ◌⊎◌, ◌↔◌, refl, inl, inr, true, some, String, List, [], ◌∷◌, ◌==◌, In,
  Bool-cases, arith,
}
use text.Mathlib.TextEquality.{eq_iff}
use ccn.Rooms.{check_room_password}
use ccn.Signaling.{
  Sockets, IsSocketIo, RoomUser, Message, Target, one, outside, fetch_active_rooms,
  fetch_room_users, Server, emit,
}
use ccn.Signaling.Handlers.{
  JoinRoom, get_all_rooms, room_name_of, password_of, peers_of, enter, emit_room_roster, join_room,
}
use ccn.Signaling.Steps.{enter-sockets}

abbrev pub ids : List RoomUser → List String
ids [] = []
ids (u ∷ us) = u.id ∷ ids us

module _ {S : Type 0} (k : Sockets S) where
  peers_of-In :
      (id u : String) (cs : List String) (s : Server S)
      → In u (ids (peers_of k id cs s)) ↔ (In u cs × (u ≢ id) × (k.is_connected u s.sockets ≡ true))
  unfolding peers_of
  peers_of-In id u [] s = (λ e. absurd e, λ e. absurd e.0)
  peers_of-In id u (c ∷ cs) s = elim (Bool-cases (c == id)) [
    | inl t ↦ rw t (ground (arith, eq_iff c id, peers_of-In id u cs s))
    | inr t ↦
        let differ : c ≢ id = ground (arith, eq_iff c id) in
        rw t (elim (Bool-cases (k.is_connected c s.sockets)) [
          | inl q ↦ rw q (ground (arith, differ, peers_of-In id u cs s))
          | inr q ↦ rw q (ground (arith, differ, peers_of-In id u cs s))
        ])
  ]

  peers_of_joined :
      (id room u : String) (s t : Server S)
      → IsSocketIo k
      → t.sockets ≡ k.join id room s.sockets
      → In u (ids (peers_of k id (k.members room t.sockets) t))
        ↔ ((In u (k.members room s.sockets)) × (u ≢ id) × (k.is_connected u t.sockets ≡ true))
  peers_of_joined id room u s t h e =
      let a : In u (k.members room t.sockets) ↔ ((u ≡ id) ⊎ In u (k.members room s.sockets)) =
        rw e (h.join_iff id room u s.sockets) in
      ground (arith, a, peers_of-In id u (k.members room t.sockets) t)

  -- A socket whose join is accepted is told, as the last message of the join, of exactly the
  -- members that the room had before, without itself and without those no longer connected.
  pub join_room-roster :
      (mesh_max : ℕ) (id : String) (payload : JoinRoom) (s : Server S)
      → IsSocketIo k
      → check_room_password (room_name_of payload) (password_of payload) s.manager ≡ true
      → (users : List RoomUser) × (rest : List (Target × Message)) × ((join_room k mesh_max id
            (some payload)
            s).sent
          ≡ (one id, fetch_room_users users) ∷ rest)
        × ((u : String)
            → In u (ids users) ↔ (
                (In u (k.members (room_name_of payload) s.sockets))
                × (u ≢ id)
                × (k.is_connected u (join_room k mesh_max id (some payload) s).sockets ≡ true)))
  unfolding join_room emit_room_roster
  join_room-roster mesh_max id payload s h e = rw e (
    _,
    _,
    refl,
    λ u.
        peers_of_joined id room u s
          (emit (outside room) (fetch_active_rooms (get_all_rooms k entered)) entered) h
          (enter-sockets k mesh_max id room s),
  )
    where
      room : String
      room = room_name_of payload

      entered : Server S
      entered = enter k mesh_max id room s
