-- ===== src/Arp/Sender.antt =====
-- frontend/src/lib/arpProtocol.ts: the operations of `ArpSender`, with its congestion control, on
-- the state of Arp/SenderState.
pub mod Run
pub mod Sound
pub mod Accept
pub mod Retransmit
pub mod Highest
pub mod Acks
pub mod Timer
pub mod Numbers
pub mod Limits
use ccn.Prelude.{
  nat_key, ℕ, suc, ◌+◌, Bool, true, false, not, List, [], ◌∷◌, ◌++◌, Option, none, some, JsMap,
  map_get, map_set, map_delete, length, if◌then◌else◌, ltb, leb, eqb,
}
use ccn.Number.{Number}
use ccn.Arp.SenderState.{
  SenderMode, arp_initial_cwnd, arp_min_rto_ms, arp_max_rto_ms, arp_dup_ack_threshold,
  arp_default_rwnd, Payload, InFlight, SenderIo, Sender, data_frame, tx, data_packet, slow_start,
  cong_avoid, fast_recovery,
}

module _ {N : Number} (io : SenderIo N) where
  -- What `io.send` and `io.log` are called with for a DATA frame.
  pub transmit : N.Num → ℕ → Payload → Bool → Sender N → Sender N
  transmit t seq payload again s = record s {
    outbox = data_frame seq payload ∷ s.outbox;
    log =
        record {
          t = t;
          dir = tx;
          type = data_packet;
          seq = seq;
          ack = 0;
          bytes = length payload;
          retransmit = again;
          drop = not (io.send s.outbox (data_frame seq payload));
        }
        ∷ s.log;
  }

  -- The body of the loop of `pump`, on the payload that `shift` took.
  pub send_fresh : Payload → List Payload → Sender N → Sender N
  unfolding transmit
  send_fresh payload rest s =
      let seq = s.next_seq in
      let now = io.now s.clock in
      let s' = transmit now seq payload false (record s {
        send_queue = rest;
        next_seq = suc seq;
        clock = suc s.clock;
        in_flight =
            map_set seq
              (record { seq = seq; payload = payload; sent_at = now; retransmitted = false })
              s.in_flight;
      }) in
      record s' { bytes_sent = s'.bytes_sent + length payload }

  pub pump_loop : N.Num → List Payload → Sender N → Sender N
  unfolding send_fresh
  pump_loop window [] s = s
  pump_loop window (payload ∷ rest) s =
      if N.lt (N.of_nat (length s.in_flight)) window
      then pump_loop window rest (send_fresh payload rest s)
      else s

  pub pump : Sender N → Sender N
  unfolding pump_loop
  pump s = pump_loop (N.lower s.cwnd (N.of_nat s.rwnd)) s.send_queue s

  unfoldable pub enqueue : Payload → Sender N → Sender N
  unfolding pump
  enqueue [] s = s
  enqueue (b ∷ payload) s = pump (record s { send_queue = s.send_queue ++ ((b ∷ payload) ∷ []) })

  -- Jacobson and Karels: the weights are 1/8 and 1/4.
  pub update_rtt : N.Num → Sender N → Sender N
  update_rtt sample s =
      let alpha = N.over (N.of_nat 1) (N.of_nat 8) in
      let beta = N.over (N.of_nat 1) (N.of_nat 4) in
      let first = N.eq s.rtt_srtt (N.of_nat 0) in
      let var =
        (if first
          then N.over sample (N.of_nat 2)
          else N.plus (N.times (N.minus (N.of_nat 1) beta) s.rtt_var)
              (N.times beta (N.absolute (N.minus s.rtt_srtt sample)))) in
      let srtt =
        (if first
          then sample
          else N.plus (N.times (N.minus (N.of_nat 1) alpha) s.rtt_srtt) (N.times alpha sample)) in
      record s {
        rtt_var = var;
        rtt_srtt = srtt;
        rto =
            N.lower (N.of_nat arp_max_rto_ms)
              (N.upper (N.of_nat arp_min_rto_ms) (N.plus srtt (N.times (N.of_nat 4) var)));
      }

  -- One segment of the loop of `acceptCumulativeAck`: no sample from a segment sent twice.
  pub ack_segment : N.Num → ℕ → InFlight N → Sender N → Sender N
  unfolding update_rtt
  ack_segment now seq seg s =
      let s' = (if seg.retransmitted then s else update_rtt (N.minus now seg.sent_at) s) in
      record s' {
        bytes_acked = s'.bytes_acked + length seg.payload;
        in_flight = map_delete seq s'.in_flight;
      }

  pub accept_loop : N.Num → ℕ → JsMap ℕ (InFlight N) → ℕ → Sender N → ℕ × Sender N
  unfolding ack_segment
  accept_loop now cum_ack [] acked s = (acked, s)
  accept_loop now cum_ack ((seq, seg) ∷ rest) acked s =
      accept_loop now cum_ack rest (if ltb seq cum_ack then suc acked else acked)
        (if ltb seq cum_ack then ack_segment now seq seg s else s)

  pub accept_cumulative_ack : ℕ → Sender N → ℕ × Sender N
  unfolding accept_loop
  accept_cumulative_ack cum_ack s =
      if leb cum_ack s.highest_ack
      then (0, s)
      else (let now = io.now s.clock in
          let (acked, s') =
            accept_loop now cum_ack s.in_flight 0 (record s { clock = suc s.clock }) in
          (acked, record s' { highest_ack = cum_ack }))

  -- The object `seg` is the value of the map under its own number, so writing its fields writes
  -- the map.
  pub retransmit_segment : InFlight N → Sender N → Sender N
  unfolding transmit
  retransmit_segment seg s =
      let now = io.now s.clock in
      transmit now seg.seq seg.payload true (record s {
        clock = suc s.clock;
        retransmits = suc s.retransmits;
        in_flight =
            map_set seg.seq (record seg { sent_at = now; retransmitted = true }) s.in_flight;
      })

  pub half_window : Sender N → N.Num
  half_window s = N.upper (N.floor (N.over s.cwnd (N.of_nat 2))) (N.of_nat 2)

  pub fast_retransmit : ℕ → Sender N → Sender N
  unfolding retransmit_segment half_window
  fast_retransmit cum_ack s = elim (map_get cum_ack s.in_flight) [
    | none ↦ s
    | some seg ↦ retransmit_segment seg (record s {
      ssthresh = half_window s;
      cwnd = N.plus (half_window s) (N.of_nat arp_dup_ack_threshold);
      mode = fast_recovery;
      fast_retransmits = suc s.fast_retransmits;
    })
  ]

  pub is_fast_recovery : SenderMode → Bool
  is_fast_recovery fast_recovery = true
  is_fast_recovery _ = false

  pub leave_fast_recovery : Sender N → Sender N
  unfolding is_fast_recovery
  leave_fast_recovery s =
      if is_fast_recovery s.mode
      then record s {
        cwnd = s.ssthresh;
        mode = if N.lt s.ssthresh s.ssthresh then slow_start else cong_avoid;
      }
      else s

  pub grow_window : ℕ → Sender N → Sender N
  grow_window acked s =
      if N.lt s.cwnd s.ssthresh
      then record s { mode = slow_start; cwnd = N.plus s.cwnd (N.of_nat acked) }
      else record s {
        mode = cong_avoid;
        cwnd = N.plus s.cwnd (N.over (N.of_nat acked) (N.upper s.cwnd (N.of_nat 1)));
      }

  -- `onAck` where the ACK is new.
  pub new_ack : ℕ → ℕ → Sender N → Sender N
  unfolding leave_fast_recovery grow_window pump
  new_ack cum_ack acked s =
      let s' = leave_fast_recovery s in
      pump (grow_window acked (record s' { dup_acks = 0; last_dup_ack_seq = some cum_ack }))

  pub is_seq : Option ℕ → ℕ → Bool
  is_seq none n = false
  is_seq (some m) n = eqb n m

  pub count_duplicate : ℕ → Sender N → Sender N
  unfolding is_seq
  count_duplicate cum_ack s =
      if is_seq s.last_dup_ack_seq cum_ack
      then record s { dup_acks = suc s.dup_acks }
      else record s { dup_acks = 1; last_dup_ack_seq = some cum_ack }

  -- `onAck` where nothing new is acknowledged.
  pub duplicate_ack : ℕ → Sender N → Sender N
  unfolding count_duplicate fast_retransmit
  duplicate_ack cum_ack s =
      let s' = count_duplicate cum_ack s in
      if eqb s'.dup_acks arp_dup_ack_threshold then fast_retransmit cum_ack s' else s'

  -- `onAck` behind the call of `acceptCumulativeAck`.
  pub accepted : ℕ → ℕ × Sender N → Sender N
  unfolding new_ack duplicate_ack
  accepted cum_ack (acked, s) =
      if ltb 0 acked
      then new_ack cum_ack acked s
      else if eqb (length s.in_flight) 0
      then s
      else duplicate_ack cum_ack s

  unfoldable pub on_ack : ℕ → ℕ → Sender N → Sender N
  unfolding accept_cumulative_ack accepted
  on_ack cum_ack advertised s = accepted cum_ack (
      accept_cumulative_ack cum_ack
        (record s { rwnd = if ltb 0 advertised then advertised else arp_default_rwnd }))

  pub oldest : Option (InFlight N) → JsMap ℕ (InFlight N) → Option (InFlight N)
  oldest best [] = best
  oldest none ((k, seg) ∷ m) = oldest (some seg) m
  oldest (some b) ((k, seg) ∷ m) = oldest (some (if N.lt seg.sent_at b.sent_at then seg else b)) m

  pub expire : InFlight N → Sender N → Sender N
  unfolding retransmit_segment half_window
  expire seg s = retransmit_segment seg (record s {
    ssthresh = half_window s;
    cwnd = N.of_nat arp_initial_cwnd;
    mode = slow_start;
    rto_expiries = suc s.rto_expiries;
    dup_acks = 0;
    rto = N.lower (N.times s.rto (N.of_nat 2)) (N.of_nat arp_max_rto_ms);
  })

  pub tick_at : N.Num → Option (InFlight N) → Sender N → Sender N
  unfolding expire
  tick_at now none s = s
  tick_at now (some seg) s = if N.lt (N.minus now seg.sent_at) s.rto then s else expire seg s

  -- The clock is read only where a segment is in flight.
  unfoldable pub tick : Sender N → Sender N
  unfolding oldest tick_at
  tick s =
      if eqb (length s.in_flight) 0
      then s
      else tick_at (io.now s.clock) (oldest none s.in_flight) (record s { clock = suc s.clock })
