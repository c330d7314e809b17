-- ===== src/Signaling/Steps.antt =====
-- What the handlers' shared parts do to the sockets and to the rooms' entries.
use ccn.Prelude.{
  string_key, ℕ, ◌≡◌, refl, ap, ◌∙◌, length, Option-cases, some, Bool-cases, inl, inr, String, List,
  [], ◌∷◌, ◌==◌,
}
use ccn.Rooms.{reconcile_mode, gc_room_password}
use ccn.Signaling.{Sockets, Server, emit, in_room_except, remove_room_user}
use ccn.Signaling.Handlers.{
  room_size, reconcile, gc, enter, collect, RoomRequest, protect, create_room, emit_room_roster,
  say_goodbye,
}

module _ {S : Type 0} (k : Sockets S) (mesh_max : ℕ) where
  pub reconcile-sockets :
      (room : String) (s : Server S) → (reconcile k mesh_max room s).1.sockets ≡ s.sockets
  unfolding reconcile
  reconcile-sockets room s =
      elim (Bool-cases (reconcile_mode mesh_max (room_size k room s) room s.manager).announced) [
        | inl e ↦ rw e refl
        | inr e ↦ rw e refl
      ]

  pub reconcile-manager :
      (room : String) (s : Server S)
      → (reconcile k mesh_max room s).1.manager
        ≡ (reconcile_mode mesh_max (room_size k room s) room s.manager).manager
  unfolding reconcile
  reconcile-manager room s =
      elim (Bool-cases (reconcile_mode mesh_max (room_size k room s) room s.manager).announced) [
        | inl e ↦ rw e refl
        | inr e ↦ rw e refl
      ]

  pub enter-sockets :
      (id room : String) (s : Server S)
      → (enter k mesh_max id room s).sockets ≡ k.join id room s.sockets
  unfolding enter
  enter-sockets id room s = reconcile-sockets room (record s { sockets = k.join id room s.sockets })

  pub enter-manager :
      (id room : String) (s : Server S)
      → (enter k mesh_max id room s).manager
        ≡ (reconcile_mode mesh_max
            (room_size k room (record s { sockets = k.join id room s.sockets }))
            room
            s.manager).manager
  unfolding enter
  enter-manager id room s = reconcile-manager room (record s { sockets = k.join id room s.sockets })

  pub collect-sockets :
      (room : String) (s : Server S) → (collect k mesh_max room s).sockets ≡ s.sockets
  unfolding collect gc
  collect-sockets room s = reconcile-sockets room s

  pub collect-manager :
      (room : String) (s : Server S)
      → (collect k mesh_max room s).manager
        ≡ gc_room_password
            (room_size k room s)
            room
            (reconcile_mode mesh_max (room_size k room s) room s.manager).manager
  unfolding collect gc
  collect-manager room s = rw (reconcile-sockets room s) (rw (reconcile-manager room s) refl)

  pub say_goodbye-same :
      (id : String) (rooms : List String) (s : Server S)
      → ((say_goodbye k id rooms s).sockets ≡ s.sockets)
        × ((say_goodbye k id rooms s).manager ≡ s.manager)
  unfolding say_goodbye
  say_goodbye-same id [] s = (refl, refl)
  say_goodbye-same id (room ∷ rooms) s = elim (Bool-cases (room == id)) [
    | inl e ↦ rw e (say_goodbye-same id rooms s)
    | inr e ↦
        rw e (say_goodbye-same id rooms (emit (in_room_except room id) (remove_room_user id) s))
  ]

  protect-sockets : (r : RoomRequest) (s : Server S) → (protect k r s).sockets ≡ s.sockets
  protect-sockets r s = elim (Option-cases r.password) [
    | inl e ↦ rw e refl
    | inr (p, e) ↦ rw e refl
  ]

  pub create_room-sockets :
      (id : String) (r : RoomRequest) (s : Server S)
      → (create_room k mesh_max id (some r) s).sockets ≡ k.join id r.room_name s.sockets
  unfolding create_room emit_room_roster
  create_room-sockets id r s =
      enter-sockets id r.room_name (protect k r s)
      ∙ ap (k.join id r.room_name) (protect-sockets r s)

  pub create_room-manager :
      (id : String) (r : RoomRequest) (s : Server S)
      → (create_room k mesh_max id (some r) s).manager
        ≡ (reconcile_mode mesh_max
            (length (k.members r.room_name (k.join id r.room_name s.sockets)))
            r.room_name
            (protect k r s).manager).manager
  unfolding create_room emit_room_roster
  create_room-manager id r s =
      enter-manager id r.room_name (protect k r s)
      ∙ ap
          (λ t.
            (reconcile_mode mesh_max (length (k.members r.room_name (k.join id r.room_name t)))
              r.room_name (protect k r s).manager).manager)
          (protect-sockets r s)
