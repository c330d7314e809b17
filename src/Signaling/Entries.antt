-- ===== src/Signaling/Entries.antt =====
-- Each handler keeps the entries of a room as long as the room has members, and no longer.
use ccn.Prelude.{
  string_key, ℕ, ◌<◌, ◌≢◌, refl, subst, Option-cases, inl, inr, Option, none, some, String, List,
  [], ◌∷◌, length, In, arith, ◌==◌, Bool-cases,
}
use text.Mathlib.TextEquality.{eq_iff}
use ccn.Rooms.{RoomManager, reconcile_mode, gc_room_password, check_room_password}
use ccn.Rooms.Lifetime.{
  AreDistinct, Kept, reconcile_mode-AreDistinct, gc_room_password-AreDistinct,
  set_room_password-AreDistinct, reconcile_mode-Kept, set_room_password-Kept, collect-Kept,
  collect-Kept_other,
}
use ccn.Signaling.{
  Sockets, IsSocketIo, Server, Target, Message, emit, in_room_except, remove_room_user,
}
use ccn.Signaling.Handlers.{
  JoinRoom, room_name_of, password_of, RoomRequest, room_size, join_room, create_room, leave_room,
  emit_room_roster, protect, collect, send_rooms,
}
use ccn.Signaling.Steps.{
  create_room-sockets, create_room-manager, enter-sockets, enter-manager, collect-sockets,
  collect-manager,
}

-- Whoever is in the room, the room is not empty.
pub size-In : (id : String) (xs : List String) → In id xs → 0 < length xs
size-In id [] i = absurd i
size-In id (x ∷ xs) i = omega arith

module _ {S : Type 0} (k : Sockets S) (mesh_max : ℕ) where
  abbrev pub IsKeptIn : String → S → RoomManager → Type 0
  IsKeptIn r s m = AreDistinct m × Kept (length (k.members r s)) r m

  -- A room with an entry is not empty.
  abbrev pub IsKept : String → Server S → Type 0
  IsKept r s = IsKeptIn r s.sockets s.manager

  -- A room that is entered has a member, and the others keep theirs.
  pub enter-IsKept :
      (id room r : String) (s : S) (m : RoomManager)
      → IsSocketIo k
      → AreDistinct m
      → (room ≢ r → Kept (length (k.members r s)) r m)
      → IsKeptIn r
          (k.join id room s)
          (reconcile_mode mesh_max (length (k.members room (k.join id room s))) room m).manager
  enter-IsKept id room r s m h d e = (
    reconcile_mode-AreDistinct mesh_max _ room m d,
    elim (Bool-cases (room == r)) [
      | inl t ↦ λ x. size-In id _ (
          subst (λ o. In id (k.members o (k.join id room s))) ((eq_iff room r).0 t)
            ((h.join_iff id room id s).1 (inl refl)))
      | inr t ↦
          let differ : room ≢ r = ground (arith, eq_iff room r) in
          rw (h.join_other id room r s differ)
            (reconcile_mode-Kept mesh_max _ _ room r m (λ x. absurd (differ x)) (e differ))
    ],
  )

  -- A room that is left is collected, and the others keep theirs.
  pub leave-IsKept :
      (id room r : String) (s : S) (m : RoomManager)
      → IsSocketIo k
      → IsKeptIn r s m
      → IsKeptIn r (k.leave id room s) (
          gc_room_password
            (length (k.members room (k.leave id room s)))
            room
            (reconcile_mode mesh_max (length (k.members room (k.leave id room s))) room m).manager)
  leave-IsKept id room r s m h (d, e) = (
    gc_room_password-AreDistinct _ room _ (reconcile_mode-AreDistinct mesh_max _ room m d),
    elim (Bool-cases (room == r)) [
      | inl t ↦
          subst
            (λ o. Kept (length (k.members o (k.leave id room s))) o (
              gc_room_password (length (k.members room (k.leave id room s))) room
                (reconcile_mode mesh_max (length (k.members room (k.leave id room s))) room
                  m).manager))
            ((eq_iff room r).0 t) (collect-Kept mesh_max _ room m d)
      | inr t ↦
          let differ : room ≢ r = ground (arith, eq_iff room r) in
          rw (h.leave_other id room r s differ) (collect-Kept_other mesh_max _ _ room r m differ e)
    ],
  )

  pub join_room-IsKept :
      (id r : String) (payload : Option JoinRoom) (s : Server S)
      → IsSocketIo k
      → IsKept r s
      → IsKept r (join_room k mesh_max id payload s)
  unfolding join_room emit_room_roster
  join_room-IsKept id r none s h e = e
  join_room-IsKept id r (some payload) s h (d, e) =
      elim (Bool-cases
        (check_room_password (room_name_of payload) (password_of payload) s.manager)) [
          | inl t ↦ rw t (
              rw
                (
                  enter-sockets k mesh_max id (room_name_of payload) s,
                  enter-manager k mesh_max id (room_name_of payload) s,
                )
                (enter-IsKept id (room_name_of payload) r s.sockets s.manager h d (λ x. e)))
          | inr t ↦ rw t (d, e)
        ]

  protect-IsKept :
      (n : ℕ) (q : RoomRequest) (r : String) (s : Server S)
      → AreDistinct s.manager
      → Kept n r s.manager
      → AreDistinct (protect k q s).manager × (q.room_name ≢ r → Kept n r (protect k q s).manager)
  protect-IsKept n q r s d e = elim (Option-cases q.password) [
    | inl t ↦ rw t (d, λ x. e)
    | inr (p, t) ↦ rw t (
      set_room_password-AreDistinct q.room_name p s.manager d,
      λ x. set_room_password-Kept n q.room_name p r s.manager (λ y. absurd (x y)) e,
    )
  ]

  pub create_room-IsKept :
      (id r : String) (payload : Option RoomRequest) (s : Server S)
      → IsSocketIo k
      → IsKept r s
      → IsKept r (create_room k mesh_max id payload s)
  unfolding create_room
  create_room-IsKept id r none s h e = e
  create_room-IsKept id r (some q) s h (d, e) =
      let (d', e') = protect-IsKept (length (k.members r s.sockets)) q r s d e in
      rw (create_room-sockets k mesh_max id q s, create_room-manager k mesh_max id q s)
        (enter-IsKept id q.room_name r s.sockets (protect k q s).manager h d' e')

  abbrev left : String → String → Server S → List (Target × Message) → Server S
  left id room s sent = record {
    sockets = k.leave id room s.sockets;
    manager = s.manager;
    media = s.media;
    sent = sent;
  }

  collect-left-IsKept :
      (id room r : String) (s : Server S) (sent : List (Target × Message))
      → IsSocketIo k
      → IsKept r s
      → IsKept r (collect k mesh_max room (left id room s sent))
  collect-left-IsKept id room r s sent h e =
      rw
        (
          collect-sockets k mesh_max room (left id room s sent),
          collect-manager k mesh_max room (left id room s sent),
        )
        (leave-IsKept id room r s.sockets s.manager h e)

  pub leave_room-IsKept :
      (id r : String) (payload : Option (Option String)) (s : Server S)
      → IsSocketIo k
      → IsKept r s
      → IsKept r (leave_room k mesh_max id payload s)
  unfolding leave_room send_rooms
  leave_room-IsKept id r none s h e = e
  leave_room-IsKept id r (some none) s h e = e
  leave_room-IsKept id r (some (some room)) s h e =
      elim (Bool-cases (k.is_joined id room s.sockets)) [
        | inl t ↦ rw t (
            collect-left-IsKept id room r s
              (emit (in_room_except room id) (remove_room_user id) s).sent h e)
        | inr t ↦ rw t e
      ]

  pub collect-AreDistinct :
      (room : String) (s : Server S)
      → AreDistinct s.manager
      → AreDistinct (collect k mesh_max room s).manager
  collect-AreDistinct room s d = rw (collect-manager k mesh_max room s) (
      gc_room_password-AreDistinct _ room _
        (reconcile_mode-AreDistinct mesh_max _ room s.manager d))

  pub collected-Kept :
      (room : String) (s : Server S)
      → AreDistinct s.manager
      → Kept (room_size k room (collect k mesh_max room s)) room (collect k mesh_max room s).manager
  collected-Kept room s d =
      rw (collect-sockets k mesh_max room s, collect-manager k mesh_max room s)
        (collect-Kept mesh_max _ room s.manager d)

  pub collected-Kept_other :
      (room r : String) (s : Server S)
      → room ≢ r
      → Kept (room_size k r s) r s.manager
      → Kept (room_size k r (collect k mesh_max room s)) r (collect k mesh_max room s).manager
  collected-Kept_other room r s differ e =
      rw (collect-sockets k mesh_max room s, collect-manager k mesh_max room s)
        (collect-Kept_other mesh_max _ _ room r s.manager differ e)
