-- ===== src/Dht/Node/Storage.antt =====
-- A value that was stored is found.
use ccn.Prelude.{string_key, ℕ, ◌≡◌, refl, true, some, String, List, ◌∷◌, map_get-set_self}
use ccn.Dht.NodeId.{NodeId}
use ccn.Dht.Lookup.{Named}
use ccn.Dht.Node.{
  HexId, store, store_ack, find_value_request, find_value_response, Node, dispatch, handle_message,
  note_sender,
}

-- A node that took a store request acknowledges it, and answers the next find-value request for
-- that key, from whichever peer, with the value stored.
pub handle_message-store :
    (now later : ℕ) (writer reader rid rid' : String) (hex hex' key : HexId) (id : NodeId)
    (bytes : List ℕ) (s : Node)
    → key.bytes ≡ some id
    → let stored = handle_message now writer (store rid hex key (some bytes)) s in
      let answered = handle_message later reader (find_value_request rid' hex' key) stored in
      (contacts : List Named) × (answered.sent
        ≡ (reader, find_value_response rid' s.id (some bytes) contacts)
          ∷ (writer, store_ack rid s.id true)
          ∷ s.sent)
unfolding handle_message dispatch note_sender
handle_message-store now later writer reader rid rid' hex hex' key id bytes s e =
    rw e (rw (map_get-set_self key.text bytes s.storage) (_, refl))
