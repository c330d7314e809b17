-- ===== src/Arp/Sender/Highest.antt =====
-- `highestAck` of `ArpSender` under `onAck`: it becomes the number acknowledged, and never falls.
use ccn.Prelude.{
  max, nat_key, ℕ, ◌≡◌, refl, ◌∙◌, List, [], ◌∷◌, some, length, arith, ltb, inl, inr, Bool-cases,
  if◌then◌else◌,
}
use ccn.Number.{Number}
use ccn.Arp.SenderState.{Payload, Sender, SenderIo, arp_default_rwnd}
use ccn.Arp.Sender.{
  send_fresh, pump_loop, pump, accept_cumulative_ack, accepted, retransmit_segment, fast_retransmit,
  leave_fast_recovery, grow_window, new_ack, count_duplicate, duplicate_ack, on_ack,
}

module _ {N : Number} (io : SenderIo N) where
  pump_loop-highest :
      (window : N.Num) (queue : List Payload) (s : Sender N)
      → (pump_loop io window queue s).highest_ack ≡ s.highest_ack
  unfolding pump_loop send_fresh
  pump_loop-highest window [] s = refl
  pump_loop-highest window (p ∷ rest) s =
      elim (Bool-cases (N.lt (N.of_nat (length s.in_flight)) window)) [
        | inl e ↦ rw (e, pump_loop) (pump_loop-highest window rest (send_fresh io p rest s))
        | inr e ↦ rw (e, pump_loop) refl
      ]

  new_ack-highest :
      (cum_ack acked : ℕ) (s : Sender N) → (new_ack io cum_ack acked s).highest_ack ≡ s.highest_ack
  unfolding new_ack pump
  new_ack-highest cum_ack acked s =
      let noted : Sender N = record (leave_fast_recovery io s) {
        dup_acks = 0;
        last_dup_ack_seq = some cum_ack;
      } in
      let grown = grow_window io acked noted in
      let same : grown.highest_ack ≡ s.highest_ack =
        unfold grow_window leave_fast_recovery in ground arith in
      pump_loop-highest _ grown.send_queue grown ∙ same

  duplicate_ack-highest :
      (cum_ack : ℕ) (s : Sender N) → (duplicate_ack io cum_ack s).highest_ack ≡ s.highest_ack
  unfolding duplicate_ack count_duplicate fast_retransmit retransmit_segment
  duplicate_ack-highest cum_ack s = ground arith

  accepted-highest :
      (cum_ack acked : ℕ) (s : Sender N)
      → (accepted io cum_ack (acked, s)).highest_ack ≡ s.highest_ack
  unfolding accepted
  accepted-highest cum_ack acked s =
      ground (arith, new_ack-highest cum_ack acked s, duplicate_ack-highest cum_ack s)

  accept_cumulative_ack-highest :
      (cum_ack : ℕ) (s : Sender N)
      → (accept_cumulative_ack io cum_ack s).1.highest_ack ≡ max s.highest_ack cum_ack
  unfolding accept_cumulative_ack
  accept_cumulative_ack-highest cum_ack s = ground arith

  -- The highest number acknowledged after an ACK is the greater of its number and the one before.
  pub on_ack-highest :
      (cum_ack advertised : ℕ) (s : Sender N)
      → (on_ack io cum_ack advertised s).highest_ack ≡ max s.highest_ack cum_ack
  unfolding on_ack
  on_ack-highest cum_ack advertised s =
      let s' : Sender N = record s {
        rwnd = if ltb 0 advertised then advertised else arp_default_rwnd;
      } in
      let r = accept_cumulative_ack io cum_ack s' in
      accepted-highest cum_ack r.0 r.1 ∙ accept_cumulative_ack-highest cum_ack s'
