-- ===== src/Arp/Sender/Numbers.antt =====
-- Sequence numbers only grow, whatever acknowledgement arrives.
use ccn.Prelude.{
  nat_key, ℕ, suc, ◌≤◌, ◌≡◌, refl, ◌∙◌, List, [], ◌∷◌, ◌++◌, Option, none, some, JsMap, map_get,
  length, arith, if◌then◌else◌, eqb, ltb, leb, inl, inr, Bool-cases, Option-cases,
}
use ccn.Number.{Number}
use ccn.Arp.SenderState.{
  Payload, InFlight, Sender, SenderIo, arp_dup_ack_threshold, arp_default_rwnd,
}
use ccn.Arp.Sender.{
  send_fresh, pump_loop, pump, enqueue, ack_segment, accept_loop, accept_cumulative_ack, accepted,
  retransmit_segment, fast_retransmit, leave_fast_recovery, grow_window, new_ack, duplicate_ack,
  count_duplicate, on_ack, oldest, expire, tick_at, tick,
}
use ccn.Arp.Sender.Accept.{ack_segment-Keeps}
use ccn.Arp.Sender.Acks.{leave_fast_recovery-Still, grow_window-Still, count_duplicate-Still}

module _ {N : Number} (io : SenderIo N) where
  send_fresh-next :
      (p : Payload) (rest : List Payload) (s : Sender N)
      → (send_fresh io p rest s).next_seq ≡ suc s.next_seq
  unfolding send_fresh
  send_fresh-next p rest s = refl

  pump_loop-next :
      (window : N.Num) (queue : List Payload) (s : Sender N)
      → s.next_seq ≤ (pump_loop io window queue s).next_seq
  unfolding pump_loop
  pump_loop-next window [] s = omega arith
  pump_loop-next window (p ∷ rest) s =
      elim (Bool-cases (N.lt (N.of_nat (length s.in_flight)) window)) [
        | inl e ↦ rw e (
            omega (
              arith,
              send_fresh-next p rest s,
              pump_loop-next window rest (send_fresh io p rest s),
            ))
        | inr e ↦ rw e (omega arith)
      ]

  pub enqueue-next : (p : Payload) (s : Sender N) → s.next_seq ≤ (enqueue io p s).next_seq
  unfolding enqueue pump
  enqueue-next [] s = omega arith
  enqueue-next (b ∷ p) s =
      pump_loop-next _ _ (record s { send_queue = s.send_queue ++ ((b ∷ p) ∷ []) })

  accept_loop-next :
      (now : N.Num) (cum_ack : ℕ) (m : JsMap ℕ (InFlight N)) (acked : ℕ) (s : Sender N)
      → (accept_loop io now cum_ack m acked s).1.next_seq ≡ s.next_seq
  unfolding accept_loop
  accept_loop-next now cum_ack [] acked s = refl
  accept_loop-next now cum_ack ((k, seg) ∷ m) acked s = accept_loop-next now cum_ack m _ _ ∙ kept
    where
      kept : (if ltb k cum_ack then ack_segment io now k seg s else s).next_seq ≡ s.next_seq
      kept = elim (Bool-cases (ltb k cum_ack)) [
        | inl e ↦ rw e ((ack_segment-Keeps io now k seg s).0.next)
        | inr e ↦ rw e
      ]

  accept_cumulative_ack-next :
      (cum_ack : ℕ) (s : Sender N) → (accept_cumulative_ack io cum_ack s).1.next_seq ≡ s.next_seq
  unfolding accept_cumulative_ack
  accept_cumulative_ack-next cum_ack s = elim (Bool-cases (leb cum_ack s.highest_ack)) [
    | inl e ↦ rw e
    | inr e ↦ rw e (accept_loop-next _ cum_ack s.in_flight 0 _)
  ]

  fast_retransmit-next :
      (cum_ack : ℕ) (s : Sender N) → (fast_retransmit io cum_ack s).next_seq ≡ s.next_seq
  unfolding fast_retransmit
  fast_retransmit-next cum_ack s = elim (Option-cases (map_get cum_ack s.in_flight)) [
    | inl e ↦ rw (e, fast_retransmit)
    | inr (seg, e) ↦ rw (e, fast_retransmit)
  ]

  new_ack-next :
      (cum_ack acked : ℕ) (s : Sender N) → s.next_seq ≤ (new_ack io cum_ack acked s).next_seq
  unfolding new_ack pump
  new_ack-next cum_ack acked s =
      let left = leave_fast_recovery-Still io s in
      let noted : Sender N = record (leave_fast_recovery io s) {
        dup_acks = 0;
        last_dup_ack_seq = some cum_ack;
      } in
      let grown = grow_window-Still io acked noted in
      omega (
        arith,
        left.next,
        grown.next,
        pump_loop-next
            (N.lower (grow_window io acked noted).cwnd (N.of_nat (grow_window io acked noted).rwnd))
            (grow_window io acked noted).send_queue (grow_window io acked noted),
      )

  duplicate_ack-next :
      (cum_ack : ℕ) (s : Sender N) → (duplicate_ack io cum_ack s).next_seq ≡ s.next_seq
  unfolding duplicate_ack
  duplicate_ack-next cum_ack s =
      let s' = count_duplicate io cum_ack s in
      let still = count_duplicate-Still io cum_ack s in
      elim (Bool-cases (eqb s'.dup_acks arp_dup_ack_threshold)) [
        | inl e ↦ rw e (fast_retransmit-next cum_ack s' ∙ still.next)
        | inr e ↦ rw e (still.next)
      ]

  accepted-next : (cum_ack : ℕ) (r : ℕ × Sender N) → r.1.next_seq ≤ (accepted io cum_ack r).next_seq
  unfolding accepted
  accepted-next cum_ack (acked, s) = elim (Bool-cases (ltb 0 acked)) [
    | inl e ↦ rw e (new_ack-next cum_ack acked s)
    | inr e ↦ rw e (elim (Bool-cases (eqb (length s.in_flight) 0)) [
      | inl z ↦ rw z (omega arith)
      | inr z ↦ rw z (omega (arith, duplicate_ack-next cum_ack s))
    ])
  ]

  pub on_ack-next :
      (cum_ack advertised : ℕ) (s : Sender N)
      → s.next_seq ≤ (on_ack io cum_ack advertised s).next_seq
  unfolding on_ack
  on_ack-next cum_ack advertised s =
      let s' : Sender N = record s {
        rwnd = if ltb 0 advertised then advertised else arp_default_rwnd;
      } in
      omega (
        arith,
        accept_cumulative_ack-next cum_ack s',
        accepted-next cum_ack (accept_cumulative_ack io cum_ack s'),
      )

  tick_at-next :
      (now : N.Num) (seg? : Option (InFlight N)) (s : Sender N)
      → s.next_seq ≤ (tick_at io now seg? s).next_seq
  unfolding tick_at expire retransmit_segment
  tick_at-next now none s = omega arith
  tick_at-next now (some seg) s = elim (Bool-cases (N.lt (N.minus now seg.sent_at) s.rto)) [
    | inl e ↦ rw e (omega arith)
    | inr e ↦ rw e (omega arith)
  ]

  pub tick-next : (s : Sender N) → s.next_seq ≤ (tick io s).next_seq
  unfolding tick
  tick-next s = elim (Bool-cases (eqb (length s.in_flight) 0)) [
    | inl e ↦ rw e (omega arith)
    | inr e ↦ rw e (
        tick_at-next (io.now s.clock) (oldest io none s.in_flight)
          (record s { clock = suc s.clock }))
  ]
