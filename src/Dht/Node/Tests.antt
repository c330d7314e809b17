-- ===== src/Dht/Node/Tests.antt =====
-- The theorems on the messages of a node, at concrete inputs.
use ccn.Prelude.{
  string_key, ◌≡◌, refl, Bool, true, false, none, some, String, List, [], ◌∷◌, replicate, map_get,
  map_delete, map_has,
}
use ccn.Dht.NodeId.{NodeId}
use ccn.Dht.Table.{new_table}
use ccn.Dht.Lookup.{Named}
use ccn.Dht.Node.{
  HexId, DhtMessage, ping, pong, store, store_ack, find_value_request, find_value_response,
  value_kind, pong_kind, rejected, Node, Wire, handle_message, request,
}
use ccn.Dht.Node.Storage.{handle_message-store}
use ccn.Dht.Node.Waiting.{Ends, request_lem, handle_message-twice}

abbrev zeros : NodeId
zeros = replicate 20 0

abbrev hex : HexId
hex = record { text = "00"; bytes = some zeros }

abbrev node : Node
node = record {
  id = hex;
  handle = "me";
  table = new_table zeros 8;
  storage = [];
  pending = ("me-1", value_kind) ∷ [];
  next_rid = 2;
  sent = [];
  settled = [];
}

handle_message-store_example :
    let stored = handle_message 1 "w" (store "w-1" hex hex (some (7 ∷ []))) node in
    let answered = handle_message 2 "r" (find_value_request "r-1" hex hex) stored in
    (contacts : List Named) × (answered.sent
      ≡ ("r", find_value_response "r-1" hex (some (7 ∷ [])) contacts)
        ∷ ("w", store_ack "w-1" hex true)
        ∷ [])
handle_message-store_example =
    handle_message-store 1 2 "w" "r" "w-1" "r-1" hex hex hex zeros (7 ∷ []) node refl

abbrev wire : Wire
wire = record { takes = λ to msg. true; rid_text = λ handle n. "me-2" }

abbrev ask_ping : String → DhtMessage
ask_ping rid = ping rid hex

request_lem_test :
    let t = request wire "peer" ask_ping pong_kind node in
    (◌≡◌ {A = Bool} true true
      → (map_get "me-2" t.pending ≡ some pong_kind) × (t.sent ≡ ("peer", ask_ping "me-2") ∷ []))
    × (◌≡◌ {A = Bool} true false
        → (map_get "me-2" t.pending ≡ none) × (t.sent ≡ []) × (t.settled ≡ ("me-2", rejected) ∷ []))
unfolding map_has
request_lem_test = request_lem wire "peer" ask_ping pong_kind node (refl, tt)

-- A pong comes twice for a request that waits for a value.
handle_message-twice_example :
    let msg = pong "me-1" hex in
    let once = handle_message 5 "peer" msg node in
    let twice = handle_message 6 "peer" msg once in
    Ends "me-1" msg pong_kind value_kind node once
    × (map_get "me-1" once.pending ≡ none)
    × (once ≡ record node { table = once.table; pending = []; settled = once.settled })
    × (twice ≡ record once { table = twice.table })
unfolding map_has map_get map_delete
handle_message-twice_example =
    handle_message-twice 5 6 "peer" "me-1" (pong "me-1" hex) pong_kind value_kind node (refl, refl)
      (refl, tt) refl
