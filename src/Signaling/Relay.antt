-- ===== src/Signaling/Relay.antt =====
-- backend/src/signaling/relay.ts: the courier between two sockets that share a room.
use ccn.Prelude.{
  string_key, ℕ, Bool, true, false, not, ◌&&◌, Option, none, some, String, List, [], ◌∷◌,
  if◌then◌else◌, ◌==◌,
}
use ccn.Signaling.{Sockets, peer_pubkey, chat_message, one, Server, emit}

-- `ChatRelayPayload`; `ts` is optional.
pub record ChatRelay : Type 0 where
  pub to : String
  pub msg_id : String
  pub iv : String
  pub ct : String
  pub ts : Option ℕ

abbrev pub time_of : Option ℕ → ℕ → ℕ
time_of none now = now
time_of (some t) now = t

module _ {S : Type 0} (k : Sockets S) where
  unfoldable pub share_loop : String → String → List String → S → Bool
  share_loop id to [] s = false
  share_loop id to (r ∷ rs) s =
      if not (r == id) && k.is_joined to r s then true else share_loop id to rs s

  -- A target that is not there is `undefined`.
  unfoldable pub share_room : String → String → S → Bool
  unfolding share_loop
  share_room id to s = if k.is_connected to s then share_loop id to (k.rooms_of id s) s else false

  unfoldable pub exchange_pubkey : String → Option (String × String) → Server S → Server S
  unfolding share_room
  exchange_pubkey id none s = s
  exchange_pubkey id (some (to, pub_key)) s =
      if share_room id to s.sockets then emit (one to) (peer_pubkey id pub_key) s else s

  unfoldable pub relay_chat : ℕ → String → Option ChatRelay → Server S → Server S
  unfolding share_room
  relay_chat now id none s = s
  relay_chat now id (some d) s =
      if share_room id d.to s.sockets
      then emit (one d.to)
          (chat_message d.msg_id id (k.username id s.sockets) d.iv d.ct (time_of d.ts now)) s
      else s
