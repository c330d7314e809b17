-- ===== src/Arp/Sender/Retransmit.antt =====
-- `retransmit` of `ArpSender`: what is sent again is a segment of the window.
use ccn.Prelude.{
  nat_key, ◌+◌, ◌-◌, ◌≡◌, refl, ap, sym, ◌∙◌, true, List, [], append-nil, some, map_get, get_elem?,
  arith, get_elem?-drop,
}
use ccn.Number.{Number}
use ccn.Arp.SenderState.{Payload, InFlight, Sender, SenderIo}
use ccn.Arp.Sender.{retransmit_segment}
use ccn.Arp.Sender.Run.{IsRun-get, IsRun-set}
use ccn.Arp.Sender.Sound.{IsSound, Sends}

-- The steps of `onAck` and `tick`, as far as the queue: no segment is taken from it unsent.
pub Sends-of :
    {N : Number} (s s' : Sender N) (sent : List Payload)
    → IsSound s' sent × (s'.send_queue ≡ s.send_queue)
    → Sends s s' sent
Sends-of s s' sent (v, q) = record { more = []; queue = sym q; sound = rw (append-nil sent) v }

module _ {N : Number} (io : SenderIo N) where
  -- A segment of the window that is sent again is put on the wire as it was.
  pub retransmit_segment-IsSound :
      (seg : InFlight N) (s : Sender N) (sent : List Payload)
      → IsSound s sent
      → map_get seg.seq s.in_flight ≡ some seg
      → IsSound (retransmit_segment io seg s) sent
  unfolding retransmit_segment
  retransmit_segment-IsSound seg s sent v e =
      let place = IsRun-get s.highest_ack seg.seq s.in_flight v.run e in
      let kept =
        IsRun-set s.highest_ack seg.seq s.in_flight seg
          (record seg { sent_at = io.now s.clock; retransmitted = true }) v.run e refl refl in
      let index : s.highest_ack + (seg.seq - s.highest_ack) ≡ seg.seq = omega (arith, place.1) in
      record {
        next = v.next;
        acked = v.acked;
        run = kept.0;
        content = kept.1 ∙ v.content;
        honest = (
          (
            refl,
            ap (get_elem? sent) (sym index)
                ∙ sym (get_elem?-drop sent s.highest_ack (seg.seq - s.highest_ack))
                ∙ ap (λ t. get_elem? t (seg.seq - s.highest_ack)) (sym v.content)
                ∙ place.2,
          ),
          v.honest,
        );
      }
