-- ===== src/Arp/Receiver/Delivery.antt =====
-- A whole call of `onData`: it keeps the order of delivery, and the awaited segment is delivered.
use ccn.Prelude.{
  nat_key, ap, ℕ, zero, suc, ◌+◌, ◌∙◌, ◌++◌, ◌∷◌, [], append-nil, append_assoc, Option-cases,
  map_get, map_delete, ◌≤◌, ◌<◌, ◌≡◌, refl, sym, subst, true, false, List, map_has, length, arith,
  eqb_iff, eqb, ltb, inl, inr, Bool-cases, All, All-append, All-mono, map_set-IsDistinct,
  map_set_new,
}
use ccn.Number.{Number}
use ccn.Arp.Frame.{arp_frame_ack, ArpFrame}
use ccn.Arp.SenderState.{Payload}
use ccn.Arp.Sender.Sound.{IsTrue}
use ccn.Arp.Receiver.{ack_frame, Receiver, advance, drain, buffer, accept, log_rx, on_data}
use ccn.Arp.Receiver.InOrder.{
  IsBuffered, IsAck, Ordered, IsInOrder, Grows, drain-Ordered, drain-Grows, advance-Ordered,
}

module _ {N : Number} where
  ordered :
      (r : Receiver N) (sent : List Payload)
      → IsInOrder r sent
      → Ordered r sent (suc r.expected_seq)
  ordered r sent v = record {
    prefix = v.prefix;
    received = v.received;
    buffered = v.buffered;
    distinct = v.distinct;
  }

  buffer-Ordered :
      (f : ArpFrame) (r : Receiver N) (sent : List Payload)
      → Ordered r sent (suc r.expected_seq)
      → IsTrue sent f
      → r.expected_seq < f.seq
      → Ordered (buffer f r) sent (suc (buffer f r).expected_seq) × Grows r (buffer f r)
  unfolding buffer
  buffer-Ordered f r sent o t h = elim (Bool-cases (map_has f.seq r.out_of_order)) [
    | inl e ↦ rw e (o, record { acks = refl; further = omega arith })
    | inr e ↦ rw e (
      record {
        prefix = o.prefix;
        received = o.received;
        buffered = rw (map_set_new f.seq f.payload r.out_of_order e) (
            All-append (IsBuffered sent (suc r.expected_seq)) r.out_of_order _ o.buffered
              ((h, t.1), tt));
        distinct = map_set-IsDistinct f.seq f.payload r.out_of_order o.distinct;
      },
      record { acks = refl; further = omega arith },
    )
  ]

  -- The awaited frame is delivered, and after it every buffered frame that follows it.
  awaited-Ordered :
      (f : ArpFrame) (r : Receiver N) (sent : List Payload)
      → Ordered r sent (suc r.expected_seq)
      → IsTrue sent f
      → f.seq ≡ r.expected_seq
      → let r' = drain (length r.out_of_order) (advance f.payload r) in
        Ordered r' sent (suc r'.expected_seq) × Grows r r' × (r.expected_seq < r'.expected_seq)
  unfolding advance
  awaited-Ordered f r sent o t h =
      let r' = advance f.payload r in
      let o' = advance-Ordered f.payload r sent o (rw h at (t.1)) in
      let g = drain-Grows (length r.out_of_order) r' in
      (
        drain-Ordered (length r.out_of_order) r' sent o' (omega arith),
        record { acks = g.acks; further = omega (arith, g.further) },
        omega (arith, g.further),
      )

  accept-Ordered :
      (f : ArpFrame) (r : Receiver N) (sent : List Payload)
      → Ordered r sent (suc r.expected_seq)
      → IsTrue sent f
      → Ordered (accept f r) sent (suc (accept f r).expected_seq) × Grows r (accept f r)
  unfolding accept
  accept-Ordered f r sent o t = elim (Bool-cases (ltb f.seq r.expected_seq)) [
    | inl e ↦ rw e (
      record {
        prefix = o.prefix;
        received = o.received;
        buffered = o.buffered;
        distinct = o.distinct;
      },
      record { acks = refl; further = omega arith },
    )
    | inr e ↦ rw e (elim (Bool-cases (eqb f.seq r.expected_seq)) [
      | inl q ↦ rw q (let (a, b, c) = awaited-Ordered f r sent o t ((eqb_iff _ _).0 q) in (a, b))
      | inr q ↦ rw q (buffer-Ordered f r sent o t (ground arith))
    ])
  ]

  -- Whatever true frame arrives, in whatever order and however often, what is delivered stays the
  -- beginning of what was sent, and the acknowledgement covers no more than was received.
  pub on_data-IsInOrder :
      (now : N.Num) (f : ArpFrame) (r : Receiver N) (sent : List Payload)
      → IsInOrder r sent
      → IsTrue sent f
      → IsInOrder (on_data now f r) sent
  unfolding on_data
  on_data-IsInOrder now f r sent v t =
      let o = ordered r sent v in
      let r₀ = log_rx now f r in
      let (o', g) =
        accept-Ordered f r₀ sent
          (unfold log_rx in
            record {
              prefix = o.prefix;
              received = o.received;
              buffered = o.buffered;
              distinct = o.distinct;
            })
          t in
      let far : r.expected_seq ≤ (accept f r₀).expected_seq = g.further in
      record {
        prefix = o'.prefix;
        received = o'.received;
        buffered = o'.buffered;
        distinct = o'.distinct;
        acks = (
          (refl, omega arith),
          subst (All (IsAck (accept f r₀).expected_seq)) (sym g.acks)
              (All-mono r.acks (λ a q. (q.0, omega (arith, q.1, far))) v.acks),
        );
      }

  -- What the drain delivers, one number for each payload.
  record Delivers (r r' : Receiver N) : Type 0 where
    later : List Payload
    delivered : r'.delivered ≡ r.delivered ++ later
    counted : r'.expected_seq ≡ r.expected_seq + length later
    window : r'.rwnd ≡ r.rwnd
    acks : r'.acks ≡ r.acks

  drain-Delivers : (fuel : ℕ) (r : Receiver N) → Delivers r (drain fuel r)
  unfolding drain advance
  drain-Delivers zero r = record {
    later = [];
    delivered = sym (append-nil r.delivered);
    counted = omega arith;
    window = refl;
    acks = refl;
  }
  drain-Delivers (suc fuel) r = elim (Option-cases (map_get r.expected_seq r.out_of_order)) [
    | inl e ↦
        rw (e, drain)
          (record {
            later = [];
            delivered = sym (append-nil r.delivered);
            counted = omega arith;
            window = refl;
            acks = refl;
          })
    | inr (p, e) ↦ rw (e, drain) (behind p (drain-Delivers fuel _))
  ]
    where
      behind :
          {r' : Receiver N} (p : Payload)
          → Delivers
              (advance p (record r { out_of_order = map_delete r.expected_seq r.out_of_order }))
              r'
          → Delivers r r'
      behind p d = record {
        later = p ∷ d.later;
        delivered = d.delivered ∙ append_assoc r.delivered (p ∷ []) d.later;
        counted = omega (arith, d.counted);
        window = d.window;
        acks = d.acks;
      }

  -- When the frame of the segment that the receiver waits for arrives, its payload is the next one
  -- delivered, once; what is delivered behind it moves the number awaited by one for each payload,
  -- and one acknowledgement is sent, which asks for the number that is then awaited.
  pub on_data_awaited :
      (now : N.Num) (f : ArpFrame) (r : Receiver N)
      → f.seq ≡ r.expected_seq
      → (later : List Payload) × (reply : ArpFrame) × ((on_data now f r).delivered
          ≡ r.delivered ++ (f.payload ∷ later))
        × ((on_data now f r).expected_seq ≡ r.expected_seq + suc (length later))
        × ((on_data now f r).acks ≡ reply ∷ r.acks)
        × (reply.type ≡ arp_frame_ack)
        × (reply.ack ≡ r.expected_seq + suc (length later))
        × (reply.window ≡ r.rwnd)
  unfolding on_data accept advance
  on_data_awaited now f r h =
      let late : ltb f.seq r.expected_seq ≡ false = ground arith in
      let due : eqb f.seq r.expected_seq ≡ true = ground arith in
      let r' = drain (length r.out_of_order) (advance f.payload (log_rx now f r)) in
      let d = drain-Delivers (length r.out_of_order) (advance f.payload (log_rx now f r)) in
      rw late (
        rw due (
          d.later,
          ack_frame r'.expected_seq r'.rwnd,
          d.delivered ∙ append_assoc r.delivered (f.payload ∷ []) d.later,
          omega (arith, d.counted),
          ap (λ t. ack_frame r'.expected_seq r'.rwnd ∷ t) d.acks,
          refl,
          omega (arith, d.counted),
          d.window,
        ))
