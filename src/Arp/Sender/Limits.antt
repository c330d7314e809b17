-- ===== src/Arp/Sender/Limits.antt =====
-- The congestion state stays within its limits: the retransmission timeout between its minimum and
-- its maximum, the threshold at two segments or more, the window at one or more.
pub mod Calls
use ccn.Prelude.{
  nat_key, ℕ, suc, ◌+◌, ◌≤◌, ◌≡◌, refl, sym, subst, ◌∙◌, Bool, true, false, List, [], ◌∷◌, ◌++◌,
  Option, none, some, JsMap, map_get, length, arith, if◌then◌else◌, eqb, ltb, leb, inl, inr,
  Bool-cases, Option-cases,
}
use ccn.Number.{Number, Laws}
use ccn.Arp.SenderState.{
  Payload, InFlight, Sender, SenderIo, SenderMode, slow_start, cong_avoid, arp_min_rto_ms,
  arp_max_rto_ms, arp_dup_ack_threshold, arp_default_rwnd, new_sender, arp_initial_cwnd,
  arp_initial_ssthresh,
}
use ccn.Arp.Sender.{
  send_fresh, pump_loop, pump, enqueue, ack_segment, accept_loop, accept_cumulative_ack, accepted,
  retransmit_segment, fast_retransmit, leave_fast_recovery, grow_window, new_ack, duplicate_ack,
  count_duplicate, on_ack, oldest, expire, tick_at, tick, transmit, update_rtt, half_window,
  is_fast_recovery, is_seq,
}

pub record IsLimited {N : Number} (s : Sender N) : Type 0 where
  pub rto_min : N.le (N.of_nat arp_min_rto_ms) s.rto ≡ true
  pub rto_max : N.le s.rto (N.of_nat arp_max_rto_ms) ≡ true
  pub ssthresh : N.le (N.of_nat 2) s.ssthresh ≡ true
  pub cwnd : N.le (N.of_nat 1) s.cwnd ≡ true

-- A step that leaves these three numbers alone.
pub IsLimited-of :
    {N : Number} (s s' : Sender N)
    → s'.rto ≡ s.rto
    → s'.ssthresh ≡ s.ssthresh
    → s'.cwnd ≡ s.cwnd
    → IsLimited s
    → IsLimited s'
IsLimited-of s s' r t c v = record {
  rto_min = rw r v.rto_min;
  rto_max = rw r v.rto_max;
  ssthresh = rw t v.ssthresh;
  cwnd = rw c v.cwnd;
}

module _ {N : Number} (L : Laws N) (io : SenderIo N) where
  pub pump_loop-IsLimited :
      (window : N.Num) (queue : List Payload) (s : Sender N)
      → IsLimited s
      → IsLimited (pump_loop io window queue s)
  unfolding pump_loop send_fresh transmit
  pump_loop-IsLimited window [] s v = v
  pump_loop-IsLimited window (p ∷ rest) s v =
      elim (Bool-cases (N.lt (N.of_nat (length s.in_flight)) window)) [
        | inl e ↦ rw e (
            pump_loop-IsLimited window rest (send_fresh io p rest s)
              (IsLimited-of s _ refl refl refl v))
        | inr e ↦ rw e v
      ]

  pub enqueue-IsLimited : (p : Payload) (s : Sender N) → IsLimited s → IsLimited (enqueue io p s)
  unfolding enqueue pump
  enqueue-IsLimited [] s v = v
  enqueue-IsLimited (b ∷ p) s v =
      pump_loop-IsLimited _ _ (record s { send_queue = s.send_queue ++ ((b ∷ p) ∷ []) })
        (IsLimited-of s _ refl refl refl v)

  update_rtt-IsLimited :
      (sample : N.Num) (s : Sender N) → IsLimited s → IsLimited (update_rtt io sample s)
  unfolding update_rtt
  update_rtt-IsLimited sample s v = record {
    rto_min = L.lower-glb _ _ _ (L.of_nat-le 100 30_000 (omega arith)) (L.upper-left _ _);
    rto_max = L.lower-left _ _;
    ssthresh = v.ssthresh;
    cwnd = v.cwnd;
  }

  ack_segment-IsLimited :
      (now : N.Num) (seq : ℕ) (seg : InFlight N) (s : Sender N)
      → IsLimited s
      → IsLimited (ack_segment io now seq seg s)
  unfolding ack_segment
  ack_segment-IsLimited now seq seg s v = elim (Bool-cases seg.retransmitted) [
    | inl e ↦ rw e (IsLimited-of s _ refl refl refl v)
    | inr e ↦ rw e (
        IsLimited-of (update_rtt io (N.minus now seg.sent_at) s) _ refl refl refl
          (update_rtt-IsLimited _ s v))
  ]

  accept_loop-IsLimited :
      (now : N.Num) (cum_ack : ℕ) (m : JsMap ℕ (InFlight N)) (acked : ℕ) (s : Sender N)
      → IsLimited s
      → IsLimited (accept_loop io now cum_ack m acked s).1
  unfolding accept_loop
  accept_loop-IsLimited now cum_ack [] acked s v = v
  accept_loop-IsLimited now cum_ack ((k, seg) ∷ m) acked s v =
      accept_loop-IsLimited now cum_ack m _ _ kept
    where
      kept : IsLimited (if ltb k cum_ack then ack_segment io now k seg s else s)
      kept = elim (Bool-cases (ltb k cum_ack)) [
        | inl e ↦ rw e (ack_segment-IsLimited now k seg s v)
        | inr e ↦ rw e v
      ]

  pub accept_cumulative_ack-IsLimited :
      (cum_ack : ℕ) (s : Sender N) → IsLimited s → IsLimited (accept_cumulative_ack io cum_ack s).1
  unfolding accept_cumulative_ack
  accept_cumulative_ack-IsLimited cum_ack s v = elim (Bool-cases (leb cum_ack s.highest_ack)) [
    | inl e ↦ rw e v
    | inr e ↦ rw e (
        IsLimited-of
          (accept_loop io (io.now s.clock) cum_ack s.in_flight 0
            (record s { clock = suc s.clock })).1
          _ refl refl refl
          (accept_loop-IsLimited _ cum_ack s.in_flight 0 _ (IsLimited-of s _ refl refl refl v)))
  ]

  pub half_window-ge : (s : Sender N) → N.le (N.of_nat 2) (half_window io s) ≡ true
  unfolding half_window
  half_window-ge s = L.upper-right _ _

  pub fast_retransmit-IsLimited :
      (cum_ack : ℕ) (s : Sender N) → IsLimited s → IsLimited (fast_retransmit io cum_ack s)
  unfolding fast_retransmit retransmit_segment transmit
  fast_retransmit-IsLimited cum_ack s v = elim (Option-cases (map_get cum_ack s.in_flight)) [
    | inl e ↦ rw (e, fast_retransmit) v
    | inr (seg, e) ↦
        rw (e, fast_retransmit)
          (record {
            rto_min = v.rto_min;
            rto_max = v.rto_max;
            ssthresh = half_window-ge s;
            cwnd = L.le-trans _ _ _ (L.of_nat-le 1 2 (omega arith)) (
                L.le-trans _ _ _ (half_window-ge s)
                  (L.le-plus _ _ (L.of_nat-le 0 3 (omega arith))));
          })
  ]
