-- ===== src/Signaling/Courier.antt =====
-- The relay carries a key or a chat message only between two sockets of one room.
use ccn.Prelude.{
  string_key, ℕ, ◌≡◌, ◌≢◌, ◌⊎◌, ◌↔◌, refl, inl, inr, true, false, not, ◌&&◌, some, String, List, [],
  ◌∷◌, ◌==◌, In, Bool-cases, arith,
}
use text.Mathlib.TextEquality.{eq_iff}
use ccn.Signaling.{Sockets, IsSocketIo, peer_pubkey, chat_message, one, Server, emit}
use ccn.Signaling.Relay.{ChatRelay, time_of, share_loop, share_room, exchange_pubkey, relay_chat}

module _ {S : Type 0} (k : Sockets S) where
  -- Both are in a room that is not the sender's own.
  abbrev pub InOneRoom : String → String → S → Type 0
  InOneRoom id to s = (r : String) × (r ≢ id) × In id (k.members r s) × In to (k.members r s)

  share_loop_iff :
      (id to : String) (rs : List String) (s : S)
      → (share_loop k id to rs s ≡ true)
        ↔ ((r : String) × In r rs × (r ≢ id) × (k.is_joined to r s ≡ true))
  unfolding share_loop
  share_loop_iff id to [] s = (λ e. absurd (cc), λ (r, i, n, j). absurd i)
  share_loop_iff id to (r ∷ rs) s = elim (Bool-cases (not (r == id) && k.is_joined to r s)) [
    | inl t ↦ rw t (λ e. (r, inl refl, ground (arith, eq_iff r id), ground arith), λ e. refl)
    | inr t ↦ rw t (
      λ e. let (o, i, n, j) = (share_loop_iff id to rs s).0 e in (o, inr i, n, j),
      λ (o, i, n, j). elim i [
        | inl q ↦ absurd (
            let a : (o == id) ≡ false = ground (arith, eq_iff o id) in
            let b : (r == id) ≡ false = rw q at a in
            let c : k.is_joined to r s ≡ true = rw q at j in ground arith)
        | inr i ↦ (share_loop_iff id to rs s).1 (o, i, n, j)
      ],
    )
  ]

  share_room_iff :
      (id to : String) (s : S)
      → IsSocketIo k
      → (share_room k id to s ≡ true) ↔ ((k.is_connected to s ≡ true) × InOneRoom id to s)
  unfolding share_room
  share_room_iff id to s h = elim (Bool-cases (k.is_connected to s)) [
    | inl t ↦ rw t (
      λ e.
          let (r, i, n, j) = (share_loop_iff id to (k.rooms_of id s) s).0 e in
          (refl, (r, n, (h.rooms_iff id r s).0 i, (h.joined_iff to r s).0 j)),
      λ (e, (r, n, i, j)).
          (share_loop_iff id to (k.rooms_of id s) s).1
            (r, (h.rooms_iff id r s).1 i, n, (h.joined_iff to r s).1 j),
    )
    | inr t ↦ rw t (λ e. absurd (cc), λ (e, x). absurd (cc))
  ]

  abbrev pub Reaches : String → String → Server S → Type 0
  Reaches id to s = (k.is_connected to s.sockets ≡ true) × InOneRoom id to s.sockets

  -- A chat message and a public key go to the one target, once, where the target is connected and
  -- in a room with the sender that is not the sender's own; otherwise nothing is done.
  pub relay-Reaches :
      (now : ℕ) (id : String) (d : ChatRelay) (pub_key : String) (s : Server S)
      → IsSocketIo k
      → ((Reaches id d.to s)
          × (relay_chat k now id (some d) s
              ≡ emit
                  (one d.to)
                  (chat_message d.msg_id id (k.username id s.sockets) d.iv d.ct (time_of d.ts now))
                  s)
          × (exchange_pubkey k id (some (d.to, pub_key)) s
              ≡ emit (one d.to) (peer_pubkey id pub_key) s))
        ⊎ ((Reaches id d.to s → ⊥)
            × (relay_chat k now id (some d) s ≡ s)
            × (exchange_pubkey k id (some (d.to, pub_key)) s ≡ s))
  unfolding relay_chat exchange_pubkey
  relay-Reaches now id d pub_key s h = elim (Bool-cases (share_room k id d.to s.sockets)) [
    | inl t ↦ inl ((share_room_iff id d.to s.sockets h).0 t, rw t refl, rw t refl)
    | inr t ↦
        inr (λ e. let u = (share_room_iff id d.to s.sockets h).1 e in cc, rw t refl, rw t refl)
  ]
