-- ===== src/Signaling/Lifetime.antt =====
-- No entry outlives its room, in any run of the server.
use ccn.Prelude.{
  string_key, ℕ, ◌<◌, ◌≢◌, ◌∙◌, subst, ◌⊎◌, refl, subst, sym, inl, inr, Bool, true, false, Option,
  none, some, String, List, [], ◌∷◌, length, In, All, arith, ◌==◌, Bool-cases, if◌then◌else◌,
  map_has,
}
use text.Mathlib.TextEquality.{eq_iff}
use ccn.Rooms.Lifetime.{AreDistinct, HasEntry, Kept}
use ccn.Signaling.{Sockets, IsSocketIo, Server, new_server, Kind, Target, Message, emit}
use ccn.Signaling.Handlers.{
  JoinRoom, RoomRequest, room_size, register, join_room, create_room, change_media, send_offer,
  send_answer, send_candidate, leave_room, disconnect, collect, collect_all, say_goodbye,
  send_rooms,
}
use ccn.Signaling.Relay.{ChatRelay, exchange_pubkey, relay_chat}
use ccn.Signaling.Entries.{
  IsKept, size-In, join_room-IsKept, create_room-IsKept, leave_room-IsKept, collect-AreDistinct,
  collected-Kept, collected-Kept_other,
}
use ccn.Signaling.Steps.{say_goodbye-same}

-- What can happen to the server: each handler with its payload, and the socket that sent it.
pub data Event : Type 0 where
  connects disconnects : String → Event
  joins : String → Option JoinRoom → Event
  creates : String → Option RoomRequest → Event
  leaves : String → Option (Option String) → Event
  changes : String → Option (String × Kind × Bool) → Event
  offers answers trickles exchanges : String → Option (String × String) → Event
  chats : ℕ → String → Option ChatRelay → Event

In-first : (xs : List String) → 0 < length xs → (x : String) × In x xs
In-first [] h = absurd (omega arith)
In-first (x ∷ xs) h = (x, inl refl)

-- A room that has the name of a socket is the private room of that socket.
abbrev pub IsOther : String → Event → Type 0
IsOther room (disconnects id) = room ≢ id
IsOther room _ = Unit {0}

module _ {S : Type 0} (k : Sockets S) (mesh_max : ℕ) where
  unfoldable pub step : Event → Server S → Server S
  unfolding register disconnect join_room create_room leave_room change_media send_offer send_answer
      send_candidate exchange_pubkey relay_chat
  step (connects id) s = register k id s
  step (disconnects id) s = disconnect k mesh_max id s
  step (joins id payload) s = join_room k mesh_max id payload s
  step (creates id payload) s = create_room k mesh_max id payload s
  step (leaves id payload) s = leave_room k mesh_max id payload s
  step (changes id payload) s = change_media k id payload s
  step (offers id payload) s = send_offer k id payload s
  step (answers id payload) s = send_answer k id payload s
  step (trickles id payload) s = send_candidate k id payload s
  step (exchanges id payload) s = exchange_pubkey k id payload s
  step (chats now id payload) s = relay_chat k now id payload s

  -- The last event stands first.
  unfoldable pub run : List Event → Server S → Server S
  unfolding step
  run [] s = s
  run (e ∷ es) s = step e (run es s)

  -- The deferred calls of a socket that left: `r` is collected, or was kept before.
  collect_all-IsKept :
      (id r : String) (rooms : List String) (s : Server S)
      → r ≢ id
      → AreDistinct s.manager
      → In r rooms ⊎ Kept (room_size k r s) r s.manager
      → IsKept k mesh_max r (collect_all k mesh_max id rooms s)
  unfolding collect_all
  collect_all-IsKept id r [] s n d e = (d, elim e [ inl i ↦ absurd i | inr j ↦ j ])
  collect_all-IsKept id r (room ∷ rooms) s n d e = elim (Bool-cases (room == id)) [
    | inl t ↦ rw t (
        collect_all-IsKept id r rooms s n d (elim e [
          | inl (inl i) ↦ absurd (n (i ∙ (eq_iff room id).0 t))
          | inl (inr i) ↦ inl i
          | inr j ↦ inr j
        ]))
    | inr t ↦ rw t (
        collect_all-IsKept id r rooms (collect k mesh_max room s) n
          (collect-AreDistinct k mesh_max room s d)
          (elim (Bool-cases (room == r)) [
            | inl q ↦ inr (
                subst
                  (λ o.
                    Kept (room_size k o (collect k mesh_max room s)) o
                      (collect k mesh_max room s).manager)
                  ((eq_iff room r).0 q) (collected-Kept k mesh_max room s d))
            | inr q ↦
                let differ : room ≢ r = ground (arith, eq_iff room r) in
                elim e [
                  | inl (inl i) ↦ absurd (differ (sym i))
                  | inl (inr i) ↦ inl i
                  | inr j ↦ inr (collected-Kept_other k mesh_max room r s differ j)
                ]
          ]))
  ]

  -- Only the rooms of a socket lose a member when it is dropped.
  dropped-Kept :
      (id r : String) (s : Server S)
      → IsSocketIo k
      → Kept (room_size k r s) r s.manager
      → In r (k.rooms_of id s.sockets)
        ⊎ Kept (length (k.members r (k.drop id s.sockets))) r s.manager
  dropped-Kept id r s h e = elim (Bool-cases (k.is_joined id r s.sockets)) [
    | inl t ↦ inl ((h.rooms_iff id r s.sockets).1 ((h.joined_iff id r s.sockets).0 t))
    | inr t ↦ inr (λ x.
        let (y, i) = In-first (k.members r s.sockets) (e x) in
        size-In y _ (
          (h.drop_iff id r y s.sockets).1 (
            i,
            λ q. absurd (
                let j =
                  (h.joined_iff id r s.sockets).1 (subst (λ o. In o (k.members r s.sockets)) q i) in
                cc),
          )))
  ]

  pub disconnect-IsKept :
      (id r : String) (s : Server S)
      → IsSocketIo k
      → r ≢ id
      → IsKept k mesh_max r s
      → IsKept k mesh_max r (disconnect k mesh_max id s)
  unfolding disconnect
  disconnect-IsKept id r s h n (d, e) =
      let t = say_goodbye k id (k.rooms_of id s.sockets) s in
      let same = say_goodbye-same k mesh_max id (k.rooms_of id s.sockets) s in
      collect_all-IsKept id r (k.rooms_of id s.sockets)
        (send_rooms k (record t { sockets = k.drop id s.sockets })) n (rw same.1 d)
        (rw same.1 (dropped-Kept id r s h e))

  emit-IsKept :
      (r : String) (b : Bool) (t : Target) (m : Message) (s : Server S)
      → IsKept k mesh_max r s
      → IsKept k mesh_max r (if b then emit t m s else s)
  emit-IsKept r true t m s e = e
  emit-IsKept r false t m s e = e

  step-IsKept :
      (r : String) (e : Event) (s : Server S)
      → IsSocketIo k
      → IsOther r e
      → IsKept k mesh_max r s
      → IsKept k mesh_max r (step e s)
  unfolding step register change_media send_offer send_answer send_candidate exchange_pubkey
      relay_chat
  step-IsKept r (connects id) s h o e = e
  step-IsKept r (disconnects id) s h o e = disconnect-IsKept id r s h o e
  step-IsKept r (joins id p) s h o e = join_room-IsKept k mesh_max id r p s h e
  step-IsKept r (creates id p) s h o e = create_room-IsKept k mesh_max id r p s h e
  step-IsKept r (leaves id p) s h o e = leave_room-IsKept k mesh_max id r p s h e
  step-IsKept r (changes id none) s h o e = e
  step-IsKept r (changes id (some p)) s h o e = e
  step-IsKept r (offers id none) s h o e = e
  step-IsKept r (offers id (some (to, body))) s h o e = emit-IsKept r _ _ _ s e
  step-IsKept r (answers id none) s h o e = e
  step-IsKept r (answers id (some p)) s h o e = e
  step-IsKept r (trickles id none) s h o e = e
  step-IsKept r (trickles id (some p)) s h o e = e
  step-IsKept r (exchanges id none) s h o e = e
  step-IsKept r (exchanges id (some (to, key))) s h o e = emit-IsKept r _ _ _ s e
  step-IsKept r (chats now id none) s h o e = e
  step-IsKept r (chats now id (some p)) s h o e = emit-IsKept r _ _ _ s e

  -- From an empty server on, after any events, a room that still has a mode or a password has
  -- members; the room is not one with the name of a socket that disconnects.
  pub run-IsKept :
      (r : String) (es : List Event) (s : S)
      → IsSocketIo k
      → All (IsOther r) es
      → HasEntry r (run es (new_server s)).manager
      → 0 < room_size k r (run es (new_server s))
  unfolding run map_has
  run-IsKept r es s h a = (go es a).1
    where
      go : (es : List Event) → All (IsOther r) es → IsKept k mesh_max r (run es (new_server s))
      go [] a = ((tt, tt), λ e. elim e [ inl x ↦ absurd (cc) | inr x ↦ absurd (cc) ])
      go (e ∷ es) (o, a) = step-IsKept r e (run es (new_server s)) h o (go es a)
