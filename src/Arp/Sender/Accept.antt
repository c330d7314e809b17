-- ===== src/Arp/Sender/Accept.antt =====
-- `acceptCumulativeAck` of `ArpSender`: the segments below the number leave the window, in order.
use ccn.Prelude.{
  nat_key, ℕ, suc, ◌+◌, ◌-◌, ◌≤◌, ◌<◌, min, ◌≡◌, refl, ap, sym, ◌∙◌, false, List, [], ◌∷◌, JsMap,
  map_delete, length, drop, arith, ltb, leb, inl, inr, Bool-cases, drop-nil, drop-drop,
  map_delete_head,
}
use ccn.Number.{Number}
use ccn.Arp.SenderState.{Payload, InFlight, Sender, SenderIo}
use ccn.Arp.Sender.{ack_segment, update_rtt, accept_loop, accept_cumulative_ack}
use ccn.Arp.Sender.Run.{IsRun, payloads-drop, IsRun-drop}
use ccn.Arp.Sender.Sound.{IsSound, IsSound-length}

-- A step that touches neither the queue, nor the numbers, nor the wire.
pub record Keeps {N : Number} (s s' : Sender N) : Type 0 where
  pub queue : s'.send_queue ≡ s.send_queue
  pub next : s'.next_seq ≡ s.next_seq
  pub highest : s'.highest_ack ≡ s.highest_ack
  pub wire : s'.outbox ≡ s.outbox

Keeps-trans : {N : Number} {a b c : Sender N} → Keeps a b → Keeps b c → Keeps a c
Keeps-trans h k = record {
  queue = k.queue ∙ h.queue;
  next = k.next ∙ h.next;
  highest = k.highest ∙ h.highest;
  wire = k.wire ∙ h.wire;
}

module _ {N : Number} (io : SenderIo N) where
  pub ack_segment-Keeps :
      (now : N.Num) (seq : ℕ) (seg : InFlight N) (s : Sender N)
      → Keeps s (ack_segment io now seq seg s)
        × ((ack_segment io now seq seg s).in_flight ≡ map_delete seq s.in_flight)
  unfolding ack_segment update_rtt
  ack_segment-Keeps now seq seg s = ground arith

  accept_loop_stop :
      (now : N.Num) (cum_ack i : ℕ) (m : JsMap ℕ (InFlight N)) (acked : ℕ) (s : Sender N)
      → IsRun i m
      → cum_ack ≤ i
      → accept_loop io now cum_ack m acked s ≡ (acked, s)
  unfolding accept_loop
  accept_loop_stop now cum_ack i [] acked s r h = refl
  accept_loop_stop now cum_ack i ((k, seg) ∷ m) acked s r h =
      let e : ltb k cum_ack ≡ false = ground arith in
      rw e (accept_loop_stop now cum_ack (suc i) m acked s r.2 (omega arith))

  -- The loop drops the segments below the number, and counts them.
  record Accepts (cum_ack i : ℕ) (m : JsMap ℕ (InFlight N)) (acked : ℕ) (s : Sender N)
      (r : ℕ × Sender N) : Type 0 where
    count : r.0 ≡ acked + min (cum_ack - i) (length m)
    rest : r.1.in_flight ≡ drop (cum_ack - i) m
    keeps : Keeps s r.1

  accept_loop-Accepts :
      (now : N.Num) (cum_ack i : ℕ) (m : JsMap ℕ (InFlight N)) (acked : ℕ) (s : Sender N)
      → IsRun i m
      → s.in_flight ≡ m
      → Accepts cum_ack i m acked s (accept_loop io now cum_ack m acked s)
  unfolding accept_loop
  accept_loop-Accepts now cum_ack i [] acked s r e = record {
    count = omega arith;
    rest = e ∙ sym (drop-nil (cum_ack - i));
    keeps = record { queue = refl; next = refl; highest = refl; wire = refl };
  }
  accept_loop-Accepts now cum_ack i ((k, seg) ∷ m) acked s r e = elim (Bool-cases (ltb k cum_ack)) [
    | inl h ↦ rw h (
        taken (ground arith) (
          accept_loop-Accepts now cum_ack (suc i) m (suc acked) (ack_segment io now k seg s) r.2
            deleted))
    | inr h ↦ rw h (
        rw (accept_loop_stop now cum_ack (suc i) m acked s r.2 (ground arith))
          (left (ground arith)))
  ]
    where
      deleted : (ack_segment io now k seg s).in_flight ≡ m
      deleted = (ack_segment-Keeps now k seg s).1 ∙ rw e (map_delete_head k seg m)

      taken :
          i < cum_ack
          → Accepts cum_ack
              (suc i)
              m
              (suc acked)
              (ack_segment io now k seg s)
              (accept_loop io now cum_ack m (suc acked) (ack_segment io now k seg s))
          → Accepts cum_ack i
              ((k, seg) ∷ m)
              acked
              s
              (accept_loop io now cum_ack m (suc acked) (ack_segment io now k seg s))
      taken lt a =
          let one : cum_ack - i ≡ suc (cum_ack - suc i) = omega arith in
          record {
            count = omega (arith, a.count);
            rest = rw one a.rest;
            keeps = Keeps-trans (ack_segment-Keeps now k seg s).0 a.keeps;
          }

      left : cum_ack ≤ i → Accepts cum_ack i ((k, seg) ∷ m) acked s (acked, s)
      left le =
          let none_left : cum_ack - i ≡ 0 = omega arith in
          record {
            count = omega arith;
            rest = rw none_left e;
            keeps = record { queue = refl; next = refl; highest = refl; wire = refl };
          }

  -- An honest cumulative acknowledgement takes the segments below it out of the window.
  pub accept_cumulative_ack-IsSound :
      (cum_ack : ℕ) (s : Sender N) (sent : List Payload)
      → IsSound s sent
      → cum_ack ≤ length sent
      → IsSound (accept_cumulative_ack io cum_ack s).1 sent
        × ((accept_cumulative_ack io cum_ack s).1.send_queue ≡ s.send_queue)
  unfolding accept_cumulative_ack
  accept_cumulative_ack-IsSound cum_ack s sent v h = elim (Bool-cases (leb cum_ack s.highest_ack)) [
    | inl e ↦ rw e (v, refl)
    | inr e ↦ rw e (
        newer (ground arith) (
          accept_loop-Accepts (io.now s.clock) cum_ack s.highest_ack s.in_flight 0
            (record s { clock = suc s.clock }) v.run refl))
  ]
    where
      r : ℕ × Sender N
      r = accept_loop io (io.now s.clock) cum_ack s.in_flight 0 (record s { clock = suc s.clock })

      newer :
          s.highest_ack < cum_ack
          → Accepts cum_ack s.highest_ack s.in_flight 0 (record s { clock = suc s.clock }) r
          → IsSound (record (r.1) { highest_ack = cum_ack }) sent × (r.1.send_queue ≡ s.send_queue)
      newer lt a =
          let full = IsSound-length s sent v in
          (
            record {
              next = a.keeps.next ∙ v.next;
              acked = h;
              run = rw (a.rest) (
                  IsRun-drop (cum_ack - s.highest_ack) s.highest_ack cum_ack s.in_flight v.run
                    (omega arith) (omega arith));
              content = rw (a.rest) (
                  payloads-drop (cum_ack - s.highest_ack) s.in_flight
                  ∙ ap (drop (cum_ack - s.highest_ack)) v.content
                  ∙ drop-drop s.highest_ack (cum_ack - s.highest_ack) cum_ack sent (omega arith));
              honest = rw (a.keeps.wire) v.honest;
            },
            a.keeps.queue,
          )
