-- ===== src/Arp/Sender/Limits/Calls.antt =====
-- The limits of `ArpSender` under acknowledgements and the timer, and so after any calls.
use ccn.Prelude.{
  nat_key, ℕ, ◌≡◌, refl, true, List, [], ◌∷◌, Option, none, some, length, arith, eqb, ltb, inl, inr,
  Bool-cases,
}
use ccn.Number.{Number, Laws}
use ccn.Arp.SenderState.{
  Payload, InFlight, Sender, SenderIo, SenderMode, slow_start, cong_avoid, arp_dup_ack_threshold,
  new_sender,
}
use ccn.Arp.Sender.{
  pump, enqueue, accepted, retransmit_segment, leave_fast_recovery, grow_window, new_ack,
  duplicate_ack, count_duplicate, on_ack, expire, tick_at, tick, transmit, is_fast_recovery, is_seq,
}
use ccn.Arp.Sender.Limits.{
  IsLimited, IsLimited-of, pump_loop-IsLimited, enqueue-IsLimited, accept_cumulative_ack-IsLimited,
  half_window-ge, fast_retransmit-IsLimited,
}

-- A sender's calls, in any order: what the application enqueues, ACKs, and ticks.
pub data Call : Type 0 where
  enqueues : Payload → Call
  acks : ℕ → ℕ → Call
  ticks : Call

pub run : {N : Number} → SenderIo N → List Call → Sender N → Sender N
run io [] s = s
run io (enqueues p ∷ cs) s = run io cs (enqueue io p s)
run io (acks cum_ack advertised ∷ cs) s = run io cs (on_ack io cum_ack advertised s)
run io (ticks ∷ cs) s = run io cs (tick io s)

module _ {N : Number} (L : Laws N) (io : SenderIo N) where
  above_one : (a : N.Num) → N.le (N.of_nat 2) a ≡ true → N.le (N.of_nat 1) a ≡ true
  above_one a h = L.le-trans _ _ _ (L.of_nat-le 1 2 (omega arith)) h

  leave_fast_recovery-IsLimited :
      (s : Sender N) → IsLimited s → IsLimited (leave_fast_recovery io s)
  unfolding leave_fast_recovery
  leave_fast_recovery-IsLimited s v = elim (Bool-cases (is_fast_recovery io s.mode)) [
    | inl e ↦ rw e (record {
      rto_min = v.rto_min;
      rto_max = v.rto_max;
      ssthresh = v.ssthresh;
      cwnd = above_one s.ssthresh v.ssthresh;
    })
    | inr e ↦ rw e v
  ]

  -- The window grows by no negative amount.
  grow_window-IsLimited :
      (acked : ℕ) (s : Sender N) → IsLimited s → IsLimited (grow_window io acked s)
  unfolding grow_window
  grow_window-IsLimited acked s v =
      let some_acked = L.of_nat-le 0 acked (omega arith) in
      elim (Bool-cases (N.lt s.cwnd s.ssthresh)) [
        | inl e ↦ rw e (grown _ some_acked slow_start)
        | inr e ↦ rw e (grown _ (L.over-nonneg _ _ some_acked (L.upper-right _ _)) cong_avoid)
      ]
    where
      grown :
          (d : N.Num)
          → N.le (N.of_nat 0) d ≡ true
          → (m : SenderMode) → IsLimited (record s { mode = m; cwnd = N.plus s.cwnd d })
      grown d h m = record {
        rto_min = v.rto_min;
        rto_max = v.rto_max;
        ssthresh = v.ssthresh;
        cwnd = L.le-trans _ _ _ v.cwnd (L.le-plus _ _ h);
      }

  new_ack-IsLimited :
      (cum_ack acked : ℕ) (s : Sender N) → IsLimited s → IsLimited (new_ack io cum_ack acked s)
  unfolding new_ack pump
  new_ack-IsLimited cum_ack acked s v =
      let s' = leave_fast_recovery io s in
      let noted : Sender N = record s' { dup_acks = 0; last_dup_ack_seq = some cum_ack } in
      pump_loop-IsLimited L io _ _ _ (
        grow_window-IsLimited acked noted
          (IsLimited-of s' noted refl refl refl (leave_fast_recovery-IsLimited s v)))

  duplicate_ack-IsLimited :
      (cum_ack : ℕ) (s : Sender N) → IsLimited s → IsLimited (duplicate_ack io cum_ack s)
  unfolding duplicate_ack
  duplicate_ack-IsLimited cum_ack s v =
      let s' = count_duplicate io cum_ack s in
      elim (Bool-cases (eqb s'.dup_acks arp_dup_ack_threshold)) [
        | inl e ↦ rw e (fast_retransmit-IsLimited L io cum_ack s' counted)
        | inr e ↦ rw e counted
      ]
    where
      counted : IsLimited (count_duplicate io cum_ack s)
      counted =
          unfold count_duplicate in
          elim (Bool-cases (is_seq io s.last_dup_ack_seq cum_ack)) [
            | inl e ↦ rw e (IsLimited-of s _ refl refl refl v)
            | inr e ↦ rw e (IsLimited-of s _ refl refl refl v)
          ]

  accepted-IsLimited :
      (cum_ack : ℕ) (r : ℕ × Sender N) → IsLimited r.1 → IsLimited (accepted io cum_ack r)
  unfolding accepted
  accepted-IsLimited cum_ack (acked, s) v = elim (Bool-cases (ltb 0 acked)) [
    | inl e ↦ rw e (new_ack-IsLimited cum_ack acked s v)
    | inr e ↦ rw e (elim (Bool-cases (eqb (length s.in_flight) 0)) [
      | inl z ↦ rw z v
      | inr z ↦ rw z (duplicate_ack-IsLimited cum_ack s v)
    ])
  ]

  pub on_ack-IsLimited :
      (cum_ack advertised : ℕ) (s : Sender N)
      → IsLimited s
      → IsLimited (on_ack io cum_ack advertised s)
  unfolding on_ack
  on_ack-IsLimited cum_ack advertised s v =
      accepted-IsLimited cum_ack _
        (accept_cumulative_ack-IsLimited L io cum_ack _ (IsLimited-of s _ refl refl refl v))

  expire-IsLimited : (seg : InFlight N) (s : Sender N) → IsLimited s → IsLimited (expire io seg s)
  unfolding expire retransmit_segment transmit
  expire-IsLimited seg s v = record {
    rto_min =
        L.lower-glb _ _ _ (L.le-trans _ _ _ v.rto_min (L.le-double _ positive))
          (L.of_nat-le 100 30_000 (omega arith));
    rto_max = L.lower-right _ _;
    ssthresh = half_window-ge L io s;
    cwnd = L.le-refl _;
  }
    where
      positive : N.le (N.of_nat 0) s.rto ≡ true
      positive = L.le-trans _ _ _ (L.of_nat-le 0 100 (omega arith)) v.rto_min

  tick_at-IsLimited :
      (now : N.Num) (seg? : Option (InFlight N)) (s : Sender N)
      → IsLimited s
      → IsLimited (tick_at io now seg? s)
  unfolding tick_at
  tick_at-IsLimited now none s v = v
  tick_at-IsLimited now (some seg) s v = elim (Bool-cases (N.lt (N.minus now seg.sent_at) s.rto)) [
    | inl e ↦ rw e v
    | inr e ↦ rw e (expire-IsLimited seg s v)
  ]

  pub tick-IsLimited : (s : Sender N) → IsLimited s → IsLimited (tick io s)
  unfolding tick
  tick-IsLimited s v = elim (Bool-cases (eqb (length s.in_flight) 0)) [
    | inl e ↦ rw e v
    | inr e ↦ rw e (tick_at-IsLimited _ _ _ (IsLimited-of s _ refl refl refl v))
  ]

  run-of_IsLimited : (cs : List Call) (s : Sender N) → IsLimited s → IsLimited (run io cs s)
  unfolding run
  run-of_IsLimited [] s v = v
  run-of_IsLimited (enqueues p ∷ cs) s v = run-of_IsLimited cs _ (enqueue-IsLimited L io p s v)
  run-of_IsLimited (acks c a ∷ cs) s v = run-of_IsLimited cs _ (on_ack-IsLimited c a s v)
  run-of_IsLimited (ticks ∷ cs) s v = run-of_IsLimited cs _ (tick-IsLimited s v)

  -- After any calls on a new sender, with any acknowledgements, the retransmission timeout lies
  -- between 100 and 30000 milliseconds, the threshold is at least two segments, and the congestion
  -- window at least one.
  pub run-IsLimited : (cs : List Call) → IsLimited (run io cs (new_sender N))
  run-IsLimited cs = run-of_IsLimited cs _ (record {
    rto_min = L.of_nat-le 100 1000 (omega arith);
    rto_max = L.of_nat-le 1000 30_000 (omega arith);
    ssthresh = L.of_nat-le 2 64 (omega arith);
    cwnd = L.le-refl _;
  })
