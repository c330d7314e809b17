-- ===== src/Signaling/Gate.antt =====
-- Who gets into a room: `join room` asks for the password, `create room` does not.
use ccn.Prelude.{
  string_key, map_get, none, ◌∷◌, ℕ, ◌≡◌, ◌≢◌, ◌⊎◌, ◌↔◌, refl, inl, inr, true, Option, some, String,
  Bool-cases, In,
}
use ccn.Rooms.{check_room_password, set_room_password}
use ccn.Rooms.Trim.{trim}
use ccn.Signaling.{Sockets, IsSocketIo, Server, one, join_room_error}
use ccn.Signaling.Steps.{enter-sockets, create_room-sockets, create_room-manager}
use ccn.Rooms.Password.{
  check_room_password-same, check_room_password-set, check_room_password_open,
  check_room_password-wrong,
}
use ccn.Rooms.Lifetime.{reconcile_mode-passwords}
use ccn.Signaling.Handlers.{
  JoinRoom, RoomRequest, room_name_of, password_of, protect, emit_room_roster, join_room,
  create_room,
}

module _ {S : Type 0} (k : Sockets S) where
  -- A join of a room with a password, without that very password, does nothing but tell the socket
  -- so: every socket stays in the rooms it was in, nobody else hears of it, and no mode, password
  -- or media state changes.
  pub join_room_refused :
      (mesh_max : ℕ) (id : String) (payload : JoinRoom) (s : Server S) {stored : String}
      → map_get (room_name_of payload) s.manager.room_passwords ≡ some stored
      → password_of payload ≢ some stored
      → let t = join_room k mesh_max id (some payload) s in
        (t.sockets ≡ s.sockets)
        × (t.manager ≡ s.manager)
        × (t.media ≡ s.media)
        × (t.sent ≡ (one id, join_room_error) ∷ s.sent)
  unfolding join_room
  join_room_refused mesh_max id payload s e n =
      rw (check_room_password-wrong (room_name_of payload) (password_of payload) s.manager e n)
        (refl, refl, refl, refl)

  -- After `join room` the socket is in the room exactly where it was in it before, or where the
  -- room has no password or the one that the socket gave.
  pub join_room-joined_iff :
      (mesh_max : ℕ) (id : String) (payload : JoinRoom) (s : Server S)
      → IsSocketIo k
      → (In id
          (k.members (room_name_of payload) (join_room k mesh_max id (some payload) s).sockets))
        ↔ ((In id (k.members (room_name_of payload) s.sockets))
            ⊎ (map_get (room_name_of payload) s.manager.room_passwords ≡ none)
            ⊎ (map_get (room_name_of payload) s.manager.room_passwords ≡ password_of payload))
  unfolding join_room emit_room_roster
  join_room-joined_iff mesh_max id payload s h =
      let opens = check_room_password_open room (password_of payload) s.manager in
      elim (Bool-cases (check_room_password room (password_of payload) s.manager)) [
        | inl e ↦ rw e (
            rw (enter-sockets k mesh_max id room s)
              (λ i. inr (opens.0 e), λ i. (h.join_iff id room id s.sockets).1 (inl refl)))
        | inr e ↦
            rw e (λ i. inl i, λ i. elim i [ inl j ↦ j | inr j ↦ absurd (let t = opens.1 j in cc) ])
      ]
    where
      room : String
      room = room_name_of payload

  -- `create room` lets the socket into the room whatever password the room has, and makes the
  -- password that it brings, where that is not blank, the one for all who join later.
  pub create_room-joined :
      (mesh_max : ℕ) (id : String) (r : RoomRequest) (password : String) (s : Server S)
      → IsSocketIo k
      → r.password ≡ some password
      → trim password ≢ ""
      → (In id (k.members r.room_name (create_room k mesh_max id (some r) s).sockets))
        × ((given : Option String)
            → (check_room_password r.room_name given (create_room k mesh_max id (some r) s).manager
                ≡ true)
              ↔ (given ≡ some (trim password)))
  unfolding create_room emit_room_roster
  create_room-joined mesh_max id r password s h e t = (
    rw (create_room-sockets k mesh_max id r s)
        ((h.join_iff id r.room_name id s.sockets).1 (inl refl)),
    λ given.
        rw
          (check_room_password-same r.room_name given (create_room k mesh_max id (some r) s).manager
            (set_room_password r.room_name password s.manager) stored)
          ((check_room_password-set r.room_name password given s.manager t).0),
  )
    where
      stored :
          (create_room k mesh_max id (some r) s).manager.room_passwords
          ≡ (set_room_password r.room_name password s.manager).room_passwords
      stored =
          rw (create_room-manager k mesh_max id r s) (
            rw (reconcile_mode-passwords mesh_max _ r.room_name (protect k r s).manager)
              (rw e refl))
