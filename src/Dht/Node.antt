-- ===== src/Dht/Node.antt =====
-- frontend/src/lib/dht/kademlia.ts: the requests of a node and the messages that it handles. The
-- hexadecimal and base 64 texts are carried with what they decode to, `none` where that throws.
pub mod Storage
pub mod Waiting
mod Tests
use ccn.Prelude.{
  string_key, ℕ, suc, Bool, true, false, not, ◌&&◌, Option, none, some, String, List, [], ◌∷◌, map,
  if◌then◌else◌, ◌==◌, JsMap, map_get, map_set, map_delete,
}
use ccn.Dht.NodeId.{NodeId, is_node_id}
use ccn.Dht.Table.{Contact, RoutingTable, observe, closest, remove}
use ccn.Dht.Lookup.{Named}

pub record HexId : Type 0 where
  pub text : String
  pub bytes : Option NodeId

-- `DhtMessage`.
pub data DhtMessage : Type 0 where
  ping pong : (rid : String) (from : HexId) → DhtMessage
  find_node_request : (rid : String) (from target : HexId) → DhtMessage
  find_node_response : (rid : String) (from : HexId) (contacts : List Named) → DhtMessage
  find_value_request : (rid : String) (from key : HexId) → DhtMessage
  find_value_response :
      (rid : String) (from : HexId) (value : Option (List ℕ)) (contacts : List Named) → DhtMessage
  store : (rid : String) (from key : HexId) (value : Option (List ℕ)) → DhtMessage
  store_ack : (rid : String) (from : HexId) (ok : Bool) → DhtMessage

-- The kinds of reply that a request waits for.
pub data ReplyKind : Type 0 where
  pong_kind node_kind value_kind ack_kind : ReplyKind

-- How a request ended.
pub data Ending : Type 0 where
  resolved : DhtMessage → Ending
  rejected : Ending

-- `sent` and `settled` have the last message and the last request first.
pub record Node : Type 0 where
  pub id : HexId
  pub handle : String
  pub table : RoutingTable
  pub storage : JsMap String (List ℕ)
  pub pending : JsMap String ReplyKind
  pub next_rid : ℕ
  pub sent : List (String × DhtMessage)
  pub settled : List (String × Ending)

abbrev pub sender_of : DhtMessage → HexId
sender_of (ping rid from) = from
sender_of (pong rid from) = from
sender_of (find_node_request rid from target) = from
sender_of (find_node_response rid from contacts) = from
sender_of (find_value_request rid from key) = from
sender_of (find_value_response rid from v contacts) = from
sender_of (store rid from key v) = from
sender_of (store_ack rid from ok) = from

abbrev pub named_of : Contact → Named
named_of c = record { id = some c.id; handle = c.handle }

abbrev pub same_kind : ReplyKind → ReplyKind → Bool
same_kind pong_kind pong_kind = true
same_kind node_kind node_kind = true
same_kind value_kind value_kind = true
same_kind ack_kind ack_kind = true
same_kind _ _ = false

abbrev pub post : String → DhtMessage → Node → Node
post to msg s = record s { sent = (to, msg) ∷ s.sent }

abbrev pub table_after : Option (RoutingTable × Bool) → RoutingTable → RoutingTable
table_after none t = t
table_after (some (t', is_new)) t = t'

-- The sender goes into the table, unless its identifier is malformed.
abbrev pub note : Option NodeId → String → ℕ → RoutingTable → RoutingTable
note none from now t = t
note (some id) from now t = if is_node_id id then table_after (observe id from now t) t else t

unfoldable pub note_sender : String → HexId → ℕ → Node → Node
unfolding observe
note_sender from hex now s = record s {
  table = if from == s.handle then s.table else note hex.bytes from now s.table;
}

abbrev pub nearest : NodeId → Node → List Named
nearest target s = map named_of (closest target s.table.k s.table)

-- A reply for a request that waits: it ends, with an error if the kind is another.
abbrev pub settle : String → ReplyKind → DhtMessage → Option ReplyKind → Node → Node
settle rid kind msg none s = s
settle rid kind msg (some expected) s = record s {
  pending = map_delete rid s.pending;
  settled = (rid, if same_kind kind expected then resolved msg else rejected) ∷ s.settled;
}

-- `local` is an array, and truthy even when it is empty.
abbrev pub answer_node : String → String → Option NodeId → Node → Node
answer_node to rid none s = s
answer_node to rid (some target) s = post to (find_node_response rid s.id (nearest target s)) s

abbrev pub answer_value : String → String → HexId → Option NodeId → Node → Node
answer_value to rid key none s = s
answer_value to rid key (some target) s =
    post to (find_value_response rid s.id (map_get key.text s.storage) (nearest target s)) s

abbrev pub answer_store : String → String → HexId → Option (List ℕ) → Node → Node
answer_store to rid key none s = post to (store_ack rid s.id false) s
answer_store to rid key (some bytes) s =
    post to (store_ack rid s.id true) (record s { storage = map_set key.text bytes s.storage })

unfoldable pub dispatch : String → DhtMessage → Node → Node
dispatch from (ping rid hex) s = post from (pong rid s.id) s
dispatch from (find_node_request rid hex target) s = answer_node from rid target.bytes s
dispatch from (find_value_request rid hex key) s = answer_value from rid key key.bytes s
dispatch from (store rid hex key v) s = answer_store from rid key v s
dispatch from (pong rid hex) s = settle rid pong_kind (pong rid hex) (map_get rid s.pending) s
dispatch from (find_node_response rid hex cs) s =
    settle rid node_kind (find_node_response rid hex cs) (map_get rid s.pending) s
dispatch from (find_value_response rid hex v cs) s =
    settle rid value_kind (find_value_response rid hex v cs) (map_get rid s.pending) s
dispatch from (store_ack rid hex ok) s =
    settle rid ack_kind (store_ack rid hex ok) (map_get rid s.pending) s

unfoldable pub handle_message : ℕ → String → DhtMessage → Node → Node
unfolding note_sender dispatch
handle_message now from msg s = dispatch from msg (note_sender from (sender_of msg) now s)

-- The transport's `send`, and the text of a request's number after the handle.
pub record Wire : Type 0 where
  pub takes : String → DhtMessage → Bool
  pub rid_text : String → ℕ → String

unfoldable pub request : Wire → String → (String → DhtMessage) → ReplyKind → Node → Node
request io to build expected s =
    let rid = io.rid_text s.handle s.next_rid in
    let t = record s { next_rid = suc s.next_rid } in
    if io.takes to (build rid)
    then post to (build rid) (record t { pending = map_set rid expected s.pending })
    else record t {
      pending = map_delete rid (map_set rid expected s.pending);
      settled = (rid, rejected) ∷ s.settled;
    }

unfoldable pub time_out : String → Node → Node
time_out rid s = record s {
  pending = map_delete rid s.pending;
  settled = (rid, rejected) ∷ s.settled;
}

-- `id_of` is the hash of `nodeIdFromString`.
unfoldable pub add_contact : (String → NodeId) → ℕ → String → Node → Option (Node × Bool)
unfolding observe
add_contact id_of now handle s =
    if handle == s.handle
    then some (s, false)
    else elim (observe (id_of handle) handle now s.table) [
      | none ↦ none
      | some (t, is_new) ↦ some (record s { table = t }, is_new)
    ]

unfoldable pub remove_contact : String → Node → Node × Bool
unfolding remove
remove_contact handle s = let (t, found) = remove handle s.table in (record s { table = t }, found)
