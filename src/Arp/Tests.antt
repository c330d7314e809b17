-- ===== src/Arp/Tests.antt =====
-- Runs of the ARP model, and the theorems at concrete inputs.
use ccn.Prelude.{
  nat_key, suc, max, ◌+◌, ℕ, ◌*◌, ◌≤◌, ◌≡◌, refl, inl, true, List, [], ◌∷◌, ◌++◌, none, some,
  length, arith, map_get, map_set, map_has, map_delete, All,
}
use ccn.Number.Thousandths.{thousandths, thousandths-Laws}
use ccn.Arp.Frame.{ArpFrame, arp_frame_ack, encode_frame, decode_frame}
use ccn.Arp.Frame.RoundTrip.{
  encode_frame-decode_frame, decode_frame_short, decode_frame-encode_frame, truncated,
}
use ccn.Arp.SenderState.{Payload, arp_default_rwnd, Sender, SenderIo, new_sender, data_frame}
use ccn.Arp.Sender.{enqueue, on_ack, tick}
use ccn.Arp.Sender.Sound.{IsSound, Sends, enqueue-Sends}
use ccn.Arp.Sender.Acks.{on_ack-Sends}
use ccn.Arp.Sender.Timer.{tick-Sends}
use ccn.Arp.Sender.Limits.{IsLimited}
use ccn.Arp.Sender.Limits.Calls.{enqueues, acks, ticks, run, run-IsLimited}
use ccn.Arp.Receiver.{Receiver, new_receiver, on_data}
use ccn.Arp.Receiver.InOrder.{IsInOrder}
use ccn.Arp.Receiver.Delivery.{on_data-IsInOrder, on_data_awaited}
use ccn.Arp.Session.{send, handle_message, segments, log_all, packet_log_max}
use ccn.Arp.Session.Segments.{concat, IsSegment, segments-concat}
use ccn.Arp.Session.PacketLog.{recent, log_all-recent}
use ccn.Arp.Stream.{
  System, new_system, OnWire, Step, send_a, timer_b, arrive_a, arrive_b, Reach, here, next,
}
use ccn.Arp.Stream
use ccn.Arp.Stream.Delivery.{delivered-IsPrefix}

abbrev lossless : SenderIo thousandths
lossless = record { send = λ sent f. true; now = λ n. n * 1000 }

abbrev fresh : Sender thousandths
fresh = new_sender thousandths

fresh-IsSound : IsSound fresh []
fresh-IsSound = record { next = refl; acked = omega arith; run = tt; content = refl; honest = tt }

enqueued : Sender thousandths
unfolding enqueue map_set
enqueued = enqueue lossless (7 ∷ []) fresh

-- The first segment goes out at once, the second waits for the window.
window_test :
    (enqueued.next_seq ≡ 1) × ((enqueue lossless (8 ∷ []) enqueued).send_queue ≡ (8 ∷ []) ∷ [])
unfolding enqueued
window_test = (refl, refl)

enqueue-Sends_test : Sends (record fresh { send_queue = (7 ∷ []) ∷ [] }) enqueued []
unfolding enqueued
enqueue-Sends_test = enqueue-Sends lossless (7 ∷ []) fresh [] fresh-IsSound (λ e. cc)

enqueued-IsSound : IsSound enqueued ((7 ∷ []) ∷ [])
unfolding enqueued
enqueued-IsSound = record {
  next = refl;
  acked = omega arith;
  run = (refl, refl, tt);
  content = refl;
  honest = ((refl, refl), tt);
}

on_ack-Sends_example :
    Sends enqueued (on_ack lossless 1 256 enqueued) ((7 ∷ []) ∷ [])
    × ((on_ack lossless 1 256 enqueued).highest_ack ≡ max enqueued.highest_ack 1)
on_ack-Sends_example = on_ack-Sends lossless 1 256 enqueued _ enqueued-IsSound (omega arith)

tick-Sends_example : Sends enqueued (tick lossless enqueued) ((7 ∷ []) ∷ [])
tick-Sends_example = tick-Sends lossless enqueued _ enqueued-IsSound

run-IsLimited_example :
    IsLimited (run lossless (enqueues (7 ∷ []) ∷ ticks ∷ acks 1 256 ∷ []) (new_sender thousandths))
run-IsLimited_example =
    run-IsLimited thousandths-Laws lossless (enqueues (7 ∷ []) ∷ ticks ∷ acks 1 256 ∷ [])

abbrev idle : Receiver thousandths
idle = new_receiver thousandths

abbrev gapped : Receiver thousandths
gapped = record (new_receiver thousandths) { out_of_order = (1, 8 ∷ []) ∷ [] }

idle-IsInOrder : IsInOrder idle ((7 ∷ []) ∷ (8 ∷ []) ∷ [])
idle-IsInOrder = record {
  prefix = refl;
  received = omega arith;
  buffered = tt;
  distinct = tt;
  acks = tt;
}

-- The second frame comes first, and the first one releases both.
reorder_test :
    ((on_data 0 (data_frame 0 (7 ∷ [])) (on_data 0 (data_frame 1 (8 ∷ [])) idle)).delivered
      ≡ (7 ∷ []) ∷ (8 ∷ []) ∷ [])
    × ((on_data 0 (data_frame 1 (8 ∷ [])) idle).delivered ≡ [])
unfolding on_data map_has map_set map_get map_delete
reorder_test = (refl, refl)

on_data-IsInOrder_example :
    IsInOrder (on_data 0 (data_frame 1 (8 ∷ [])) idle) ((7 ∷ []) ∷ (8 ∷ []) ∷ [])
on_data-IsInOrder_example =
    on_data-IsInOrder 0 (data_frame 1 (8 ∷ [])) idle _ idle-IsInOrder (refl, refl)

-- The first segment comes when the second one waits in the buffer.
on_data_awaited_example :
    let r = on_data 0 (data_frame 0 (7 ∷ [])) gapped in
    (later : List Payload) × (reply : ArpFrame) × (r.delivered ≡ (7 ∷ []) ∷ later)
    × (r.expected_seq ≡ 0 + suc (length later))
    × (r.acks ≡ reply ∷ [])
    × (reply.type ≡ arp_frame_ack)
    × (reply.ack ≡ 0 + suc (length later))
    × (reply.window ≡ arp_default_rwnd)
on_data_awaited_example = on_data_awaited 0 (data_frame 0 (7 ∷ [])) gapped refl

decode_frame-encode_frame_example :
    decode_frame (encode_frame (data_frame 5 (1 ∷ 2 ∷ [])))
    ≡ some (truncated (data_frame 5 (1 ∷ 2 ∷ [])))
decode_frame-encode_frame_example = decode_frame-encode_frame (data_frame 5 (1 ∷ 2 ∷ []))

abbrev wire : List ℕ
wire = 0 ∷ 0 ∷ 0 ∷ 0 ∷ 5 ∷ 0 ∷ 0 ∷ 0 ∷ 0 ∷ 1 ∷ 0 ∷ 9 ∷ []

encode_frame-decode_frame_example : encode_frame (data_frame 5 (9 ∷ [])) ≡ wire
unfolding decode_frame
encode_frame-decode_frame_example = encode_frame-decode_frame wire (omega arith) refl

decode_frame_short_test : decode_frame (0 ∷ 1 ∷ []) ≡ none
decode_frame_short_test = (decode_frame_short (0 ∷ 1 ∷ [])).1 (omega arith)

segments-concat_example :
    (concat (segments (1 ∷ 2 ∷ 3 ∷ [])) ≡ 1 ∷ 2 ∷ 3 ∷ [])
    × All IsSegment (segments (1 ∷ 2 ∷ 3 ∷ []))
segments-concat_example = segments-concat (1 ∷ 2 ∷ 3 ∷ [])

log_all-recent_test :
    (log_all (4 ∷ 5 ∷ []) [] ≡ recent {A = ℕ} (4 ∷ 5 ∷ []))
    × (length {A = ℕ} (log_all (4 ∷ 5 ∷ []) []) ≤ packet_log_max)
log_all-recent_test = log_all-recent (4 ∷ 5 ∷ [])

-- `a` sends two bytes, the frame reaches `b`, and the ACK reaches `a`.
abbrev begun : System thousandths
begun = record (new_system thousandths) {
  a = send lossless (7 ∷ 8 ∷ []) (new_system thousandths).a;
  told_a = 7 ∷ 8 ∷ [];
}

abbrev arrived : System thousandths
arrived = record begun {
  b = handle_message lossless 0 (encode_frame (data_frame 0 (7 ∷ 8 ∷ []))) begun.b;
}

arrived_steps : Reach lossless lossless (new_system thousandths) arrived
unfolding send enqueue map_set segments
arrived_steps =
    next (next here (send_a (7 ∷ 8 ∷ [])))
      (arrive_b 0 (data_frame 0 (7 ∷ 8 ∷ [])) (Stream.OnWire.data_frame (inl refl)))

delivered-IsPrefix_example :
    ((rest : List ℕ) × (7 ∷ 8 ∷ [] ≡ concat arrived.b.receiver.delivered ++ rest))
    × ((rest : List ℕ) × ([] ≡ concat arrived.a.receiver.delivered ++ rest))
unfolding send enqueue map_set segments handle_message encode_frame decode_frame on_data map_has
delivered-IsPrefix_example =
    delivered-IsPrefix lossless lossless arrived arrived_steps (omega arith) (omega arith)
