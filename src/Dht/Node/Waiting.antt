-- ===== src/Dht/Node/Waiting.antt =====
-- Each request ends at most once.
use ccn.Prelude.{
  string_key, ap, sym, subst, ◌∙◌, map_delete, inl, inr, ◌≢◌, ◌⊎◌, ℕ, ◌≡◌, refl, true, false, none,
  some, String, ◌∷◌, map_get, map_get-set_self, map_set-IsDistinct, map_get-delete_self, IsDistinct,
}
use ccn.Dht.Node.{
  DhtMessage, ping, pong, find_node_request, find_node_response, find_value_request,
  find_value_response, store, store_ack, ReplyKind, pong_kind, node_kind, value_kind, ack_kind,
  resolved, rejected, settle, sender_of, Node, Wire, same_kind, dispatch, handle_message,
  note_sender, request,
}

-- The request that a node sends is waited for under its own number; one that the transport does
-- not take ends at once with an error, and is not waited for.
pub request_lem :
    (io : Wire) (to : String) (build : String → DhtMessage) (expected : ReplyKind) (s : Node)
    → IsDistinct s.pending
    → let rid = io.rid_text s.handle s.next_rid in
      let t = request io to build expected s in
      (io.takes to (build rid) ≡ true
        → (map_get rid t.pending ≡ some expected) × (t.sent ≡ (to, build rid) ∷ s.sent))
      × (io.takes to (build rid) ≡ false
          → (map_get rid t.pending ≡ none)
            × (t.sent ≡ s.sent)
            × (t.settled ≡ (rid, rejected) ∷ s.settled))
unfolding request
request_lem io to build expected s d = (
  λ e. rw e (map_get-set_self _ expected s.pending, refl),
  λ e. rw e (map_get-delete_self _ _ (map_set-IsDistinct _ expected s.pending d), refl, refl),
)

-- The messages that answer a request, with its number and their kind.
abbrev pub IsReply : DhtMessage → String → ReplyKind → Type 0
IsReply (pong r hex) rid kind = (r ≡ rid) × (pong_kind ≡ kind)
IsReply (find_node_response r hex cs) rid kind = (r ≡ rid) × (node_kind ≡ kind)
IsReply (find_value_response r hex v cs) rid kind = (r ≡ rid) × (value_kind ≡ kind)
IsReply (store_ack r hex ok) rid kind = (r ≡ rid) × (ack_kind ≡ kind)
IsReply _ rid kind = ⊥

dispatch-settle :
    (from rid : String) (msg : DhtMessage) (kind : ReplyKind) (s : Node)
    → IsReply msg rid kind
    → dispatch from msg s ≡ settle rid kind msg (map_get rid s.pending) s
unfolding dispatch
dispatch-settle from rid (pong r hex) kind s (e, k) = cc
dispatch-settle from rid (find_node_response r hex cs) kind s (e, k) = cc
dispatch-settle from rid (find_value_response r hex v cs) kind s (e, k) = cc
dispatch-settle from rid (store_ack r hex ok) kind s (e, k) = cc
dispatch-settle from rid (ping r hex) kind s h = absurd h
dispatch-settle from rid (find_node_request r hex t) kind s h = absurd h
dispatch-settle from rid (find_value_request r hex key) kind s h = absurd h
dispatch-settle from rid (store r hex key v) kind s h = absurd h

same_kind-cases :
    (k l : ReplyKind) → ((same_kind k l ≡ true) × (k ≡ l)) ⊎ ((same_kind k l ≡ false) × (k ≢ l))
same_kind-cases pong_kind pong_kind = inl (refl, refl)
same_kind-cases node_kind node_kind = inl (refl, refl)
same_kind-cases value_kind value_kind = inl (refl, refl)
same_kind-cases ack_kind ack_kind = inl (refl, refl)
same_kind-cases _ _ = inr (refl, λ e. absurd (cc))

-- How the request that `before` waits for under `rid` ends by the reply.
abbrev pub Ends : String → DhtMessage → ReplyKind → ReplyKind → Node → Node → Type 0
Ends rid msg kind expected before after =
    ((kind ≡ expected) × (after.settled ≡ (rid, resolved msg) ∷ before.settled))
    ⊎ ((kind ≢ expected) × (after.settled ≡ (rid, rejected) ∷ before.settled))

-- A reply that nobody waits for does nothing.
handle_message-late :
    (now : ℕ) (from rid : String) (msg : DhtMessage) (kind : ReplyKind) (s : Node)
    → IsReply msg rid kind
    → map_get rid s.pending ≡ none
    → let t = handle_message now from msg s in t ≡ record s { table = t.table }
unfolding handle_message note_sender
handle_message-late now from rid msg kind s r e =
    let n = note_sender from (sender_of msg) now s in
    let same : dispatch from msg n ≡ n =
      dispatch-settle from rid msg kind n r ∙ ap (λ o. settle rid kind msg o n) e in
    same ∙ sym (ap (λ t. record s { table = t.table }) same)

settled-Ends :
    (rid : String) (msg : DhtMessage) (kind expected : ReplyKind) (s n : Node)
    → n.settled ≡ s.settled
    → Ends rid msg kind expected s (settle rid kind msg (some expected) n)
settled-Ends rid msg kind expected s n e = elim (same_kind-cases kind expected) [
  | inl (b, h) ↦ inl (h, rw (b, e) refl)
  | inr (b, h) ↦ inr (h, rw (b, e) refl)
]

-- The first reply to a request that waits, of whatever kind, ends it, with the reply if it is of
-- the kind that the request expects, and with an error if not; it takes that one request from those
-- that wait, and changes nothing else but the routing table. The same reply that comes again
-- changes nothing but the routing table.
pub handle_message-twice :
    (now later : ℕ) (from rid : String) (msg : DhtMessage) (kind expected : ReplyKind) (s : Node)
    → IsReply msg rid kind
    → IsDistinct s.pending
    → map_get rid s.pending ≡ some expected
    → let once = handle_message now from msg s in
      let twice = handle_message later from msg once in
      Ends rid msg kind expected s once
      × (map_get rid once.pending ≡ none)
      × (once ≡ record s {
        table = once.table;
        pending = map_delete rid s.pending;
        settled = once.settled;
      })
      × (twice ≡ record once { table = twice.table })
unfolding handle_message note_sender
handle_message-twice now later from rid msg kind expected s r d e =
    let n = note_sender from (sender_of msg) now s in
    let gone = map_get-delete_self rid s.pending d in
    let ended = settle rid kind msg (some expected) n in
    let first : dispatch from msg n ≡ ended =
      dispatch-settle from rid msg kind n r ∙ ap (λ o. settle rid kind msg o n) e in
    subst
      (λ once.
        Ends rid msg kind expected s once
        × (map_get rid once.pending ≡ none)
        × (once ≡ record s {
          table = once.table;
          pending = map_delete rid s.pending;
          settled = once.settled;
        })
        × (handle_message later from msg once
            ≡ record once { table = (handle_message later from msg once).table }))
      (sym first)
      (
        settled-Ends rid msg kind expected s n refl,
        gone,
        refl,
        handle_message-late later from rid msg kind ended r gone,
      )
