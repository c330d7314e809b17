-- ===== src/Signaling/Tests.antt =====
-- Runs of the signaling model, and the theorems at concrete inputs.
use ccn.Prelude.{
  string_key, ◌≡◌, ◌≢◌, ◌⊎◌, ◌↔◌, ◌<◌, refl, inr, true, Option, none, some, String, List, [], ◌∷◌,
  In, map_get, map_set, map_has, map_delete,
}
use text.Mathlib.TextEquality.{eq_iff}
use ccn.Rooms.{reconcile_mode, check_room_password, set_room_password}
use ccn.Rooms.Trim.{trim}
use ccn.Signaling.{
  Server, RoomUser, Target, Message, new_server, emit, one, join_room_error, peer_pubkey,
  chat_message, fetch_room_users,
}
use ccn.Signaling.Handlers.{JoinRoom, bare, request, RoomRequest, join_room, create_room, room_size}
use ccn.Signaling.Relay.{ChatRelay, relay_chat, exchange_pubkey}
use ccn.Signaling.Pairs.{Pairs, pairs, pairs-IsSocketIo}
use ccn.Signaling.Gate.{join_room_refused, join_room-joined_iff, create_room-joined}
use ccn.Signaling.Lifetime.{creates, leaves, run, run-IsKept}
use ccn.Signaling.Courier.{Reaches, relay-Reaches}
use ccn.Signaling.Roster.{ids, join_room-roster}

-- Two sockets that are connected, and a room with a password.
abbrev both : Pairs
both = ("a", "a") ∷ ("b", "b") ∷ ("a", "den") ∷ []

abbrev guarded : Server Pairs
guarded = record {
  sockets = both;
  manager = record { room_mode = []; room_passwords = ("den", "pw") ∷ [] };
  media = [];
  sent = [];
}

join_room_refused_example :
    let t = join_room pairs 4 "b" (some (bare "den")) guarded in
    (t.sockets ≡ both)
    × (t.manager ≡ guarded.manager)
    × (t.media ≡ [])
    × (t.sent ≡ (one "b", join_room_error) ∷ [])
unfolding map_get
join_room_refused_example = join_room_refused pairs 4 "b" (bare "den") guarded refl (λ e. cc)

abbrev with_password : JoinRoom
with_password = request (record { room_name = "den"; password = some "pw" })

join_room-joined_iff_example :
    (In "b" (pairs.members "den" (join_room pairs 4 "b" (some with_password) guarded).sockets)) ↔ (
      (In "b" (pairs.members "den" guarded.sockets))
      ⊎ (map_get "den" guarded.manager.room_passwords ≡ none)
      ⊎ (map_get "den" guarded.manager.room_passwords ≡ some "pw"))
join_room-joined_iff_example =
    join_room-joined_iff pairs 4 "b" with_password guarded pairs-IsSocketIo

abbrev takeover : RoomRequest
takeover = record { room_name = "den"; password = some "mine" }

differ : ◌≢◌ {A = String} "mine" ""
differ e = let same = (eq_iff "mine" "").1 e in cc

create_room-joined_example :
    (In "b" (pairs.members "den" (create_room pairs 4 "b" (some takeover) guarded).sockets))
    × ((given : Option String)
        → (check_room_password "den" given (create_room pairs 4 "b" (some takeover) guarded).manager
            ≡ true)
          ↔ (given ≡ some (trim "mine")))
unfolding trim
create_room-joined_example =
    create_room-joined pairs 4 "b" takeover "mine" guarded pairs-IsSocketIo refl differ

run-IsKept_example :
    0
    < room_size pairs "den" (
        run pairs 4
          (creates "a" (some takeover) ∷ leaves "b" (some (some "den")) ∷ [])
          (new_server both))
unfolding run map_has map_set map_get map_delete reconcile_mode set_room_password trim
run-IsKept_example =
    run-IsKept pairs 4 "den" (creates "a" (some takeover) ∷ leaves "b" (some (some "den")) ∷ [])
      both pairs-IsSocketIo (tt, (tt, tt)) (inr refl)

abbrev hello : ChatRelay
hello = record { to = "b"; msg_id = "m"; iv = "i"; ct = "c"; ts = none }

abbrev together : Server Pairs
together = new_server (("b", "den") ∷ both)

relay-Reaches_example :
    ((Reaches pairs "a" "b" together)
      × (relay_chat pairs 7 "a" (some hello) together
          ≡ emit (one "b") (chat_message "m" "a" "a" "i" "c" 7) together)
      × (exchange_pubkey pairs "a" (some ("b", "key")) together
          ≡ emit (one "b") (peer_pubkey "a" "key") together))
    ⊎ ((Reaches pairs "a" "b" together → ⊥)
        × (relay_chat pairs 7 "a" (some hello) together ≡ together)
        × (exchange_pubkey pairs "a" (some ("b", "key")) together ≡ together))
relay-Reaches_example = relay-Reaches pairs 7 "a" hello "key" together pairs-IsSocketIo

join_room-roster_example :
    (users : List RoomUser) × (rest : List (Target × Message)) × ((join_room pairs 4 "b"
        (some with_password)
        guarded).sent
      ≡ (one "b", fetch_room_users users) ∷ rest)
    × ((u : String)
        → In u (ids users) ↔ (
            (In u (pairs.members "den" guarded.sockets))
            × (u ≢ "b")
            × (pairs.is_connected u (join_room pairs 4 "b" (some with_password) guarded).sockets
                ≡ true)))
unfolding check_room_password map_get
join_room-roster_example = join_room-roster pairs 4 "b" with_password guarded pairs-IsSocketIo refl
