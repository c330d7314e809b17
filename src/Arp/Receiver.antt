-- ===== src/Arp/Receiver.antt =====
-- frontend/src/lib/arpProtocol.ts: `ArpReceiver`. What the callbacks `deliver` and `send` were
-- given is part of the state: the payloads oldest first, the ACK frames newest first.
pub mod InOrder
pub mod Delivery
use ccn.Prelude.{
  nat_key, ℕ, zero, suc, ◌+◌, List, [], ◌∷◌, ◌++◌, Option, none, some, JsMap, map_get, map_set,
  map_has, map_delete, length, if◌then◌else◌, ltb, eqb, Bool, true, false,
}
use ccn.Number.{Number}
use ccn.Arp.Frame.{ArpFrame, arp_frame_ack}
use ccn.Arp.SenderState.{
  Payload, PacketLogEntry, Direction, tx, rx, PacketType, data_packet, ack_packet, arp_default_rwnd,
}

module _ (N : Number) where
  pub record Receiver : Type 0 where
    pub expected_seq : ℕ
    pub bytes_delivered : ℕ
    pub duplicates : ℕ
    pub out_of_order : JsMap ℕ Payload
    pub rwnd : ℕ
    pub delivered : List Payload
    pub acks : List ArpFrame
    pub log : List (PacketLogEntry N)

  abbrev pub new_receiver : Receiver
  new_receiver = record {
    expected_seq = 0;
    bytes_delivered = 0;
    duplicates = 0;
    out_of_order = [];
    rwnd = arp_default_rwnd;
    delivered = [];
    acks = [];
    log = [];
  }

abbrev pub ack_frame : ℕ → ℕ → ArpFrame
ack_frame ack window = record {
  type = arp_frame_ack;
  seq = 0;
  ack = ack;
  window = window;
  payload = [];
}

module _ {N : Number} where
  pub deliver : Payload → Receiver N → Receiver N
  deliver payload r = record r {
    bytes_delivered = r.bytes_delivered + length payload;
    delivered = r.delivered ++ (payload ∷ []);
  }

  -- `deliver` and then `expectedSeq++`.
  pub advance : Payload → Receiver N → Receiver N
  unfolding deliver
  advance payload r = let r' = deliver payload r in record r' { expected_seq = suc r'.expected_seq }

  -- The drain of the buffer. Each round deletes an entry, so the size of the buffer is enough fuel.
  pub drain : ℕ → Receiver N → Receiver N
  unfolding advance
  drain zero r = r
  drain (suc fuel) r = elim (map_get r.expected_seq r.out_of_order) [
    | none ↦ r
    | some buffered ↦
        drain fuel
          (advance buffered (record r { out_of_order = map_delete r.expected_seq r.out_of_order }))
  ]

  pub buffer : ArpFrame → Receiver N → Receiver N
  buffer frame r =
      if map_has frame.seq r.out_of_order
      then r
      else record r { out_of_order = map_set frame.seq frame.payload r.out_of_order }

  pub accept : ArpFrame → Receiver N → Receiver N
  unfolding drain advance buffer
  accept frame r =
      if ltb frame.seq r.expected_seq
      then record r { duplicates = suc r.duplicates }
      else if eqb frame.seq r.expected_seq
      then drain (length r.out_of_order) (advance frame.payload r)
      else buffer frame r

  pub log_rx : N.Num → ArpFrame → Receiver N → Receiver N
  log_rx now frame r = record r {
    log =
        record {
          t = now;
          dir = rx;
          type = data_packet;
          seq = frame.seq;
          ack = 0;
          bytes = length frame.payload;
          retransmit = false;
          drop = false;
        }
        ∷ r.log;
  }

  -- The cumulative ACK that follows every DATA frame.
  pub acknowledge : N.Num → Receiver N → Receiver N
  acknowledge now r = record r {
    acks = ack_frame r.expected_seq r.rwnd ∷ r.acks;
    log =
        record {
          t = now;
          dir = tx;
          type = ack_packet;
          seq = 0;
          ack = r.expected_seq;
          bytes = 0;
          retransmit = false;
          drop = false;
        }
        ∷ r.log;
  }

  unfoldable pub on_data : N.Num → ArpFrame → Receiver N → Receiver N
  unfolding accept log_rx acknowledge
  on_data now frame r = acknowledge now (accept frame (log_rx now frame r))
