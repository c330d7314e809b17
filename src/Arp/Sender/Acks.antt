-- ===== src/Arp/Sender/Acks.antt =====
-- `onAck` of `ArpSender`: an honest acknowledgement keeps the invariant of the sender.
use ccn.Prelude.{
  max, nat_key, ℕ, ◌≤◌, ◌≡◌, refl, sym, ◌∙◌, subst, List, some, map_get, length, arith, eqb, ltb,
  inl, inr, Bool-cases, Option-cases, if◌then◌else◌,
}
use ccn.Number.{Number}
use ccn.Arp.SenderState.{Payload, Sender, SenderIo, arp_dup_ack_threshold, arp_default_rwnd}
use ccn.Arp.Sender.{
  accept_cumulative_ack, fast_retransmit, leave_fast_recovery, grow_window, new_ack, duplicate_ack,
  on_ack, accepted, count_duplicate,
}
use ccn.Arp.Sender.Run.{IsRun-get}
use ccn.Arp.Sender.Sound.{IsSound, Sends, IsSound-of, pump-Sends}
use ccn.Arp.Sender.Accept.{accept_cumulative_ack-IsSound}
use ccn.Arp.Sender.Highest.{on_ack-highest}
use ccn.Arp.Sender.Retransmit.{retransmit_segment-IsSound, Sends-of}

-- A step that touches the congestion state alone.
pub record Still {N : Number} (s s' : Sender N) : Type 0 where
  pub next : s'.next_seq ≡ s.next_seq
  pub highest : s'.highest_ack ≡ s.highest_ack
  pub window : s'.in_flight ≡ s.in_flight
  pub wire : s'.outbox ≡ s.outbox
  pub queue : s'.send_queue ≡ s.send_queue

Still-IsSound :
    {N : Number} {s s' : Sender N}
    → Still s s'
    → (sent : List Payload) → IsSound s sent
    → IsSound s' sent
Still-IsSound t sent v = IsSound-of _ _ sent t.next t.highest t.window t.wire v

module _ {N : Number} (io : SenderIo N) where
  fast_retransmit-IsSound :
      (cum_ack : ℕ) (s : Sender N) (sent : List Payload)
      → IsSound s sent
      → IsSound (fast_retransmit io cum_ack s) sent
        × ((fast_retransmit io cum_ack s).send_queue ≡ s.send_queue)
  unfolding fast_retransmit
  fast_retransmit-IsSound cum_ack s sent v = elim (Option-cases (map_get cum_ack s.in_flight)) [
    | inl e ↦ rw (e, fast_retransmit) (v, refl)
    | inr (seg, e) ↦
        let place = IsRun-get s.highest_ack cum_ack s.in_flight v.run e in
        rw (e, fast_retransmit)
          (
            retransmit_segment-IsSound io seg _ sent (IsSound-of s _ sent refl refl refl refl v)
                (subst (λ t. map_get t s.in_flight ≡ some seg) (sym place.0) e),
            refl,
          )
  ]

  pub leave_fast_recovery-Still : (s : Sender N) → Still s (leave_fast_recovery io s)
  unfolding leave_fast_recovery
  leave_fast_recovery-Still s = ground arith

  pub grow_window-Still : (acked : ℕ) (s : Sender N) → Still s (grow_window io acked s)
  unfolding grow_window
  grow_window-Still acked s = ground arith

  new_ack-Sends :
      (cum_ack acked : ℕ) (s : Sender N) (sent : List Payload)
      → IsSound s sent
      → Sends s (new_ack io cum_ack acked s) sent
  unfolding new_ack
  new_ack-Sends cum_ack acked s sent v =
      let left = leave_fast_recovery-Still s in
      let noted : Sender N = record (leave_fast_recovery io s) {
        dup_acks = 0;
        last_dup_ack_seq = some cum_ack;
      } in
      let grown = grow_window-Still acked noted in
      let v' =
        Still-IsSound grown sent
          (IsSound-of _ noted sent refl refl refl refl (Still-IsSound left sent v)) in
      let w = pump-Sends io _ sent v' in
      record { more = w.more; queue = sym left.queue ∙ sym grown.queue ∙ w.queue; sound = w.sound }

  pub count_duplicate-Still : (cum_ack : ℕ) (s : Sender N) → Still s (count_duplicate io cum_ack s)
  unfolding count_duplicate
  count_duplicate-Still cum_ack s = ground arith

  duplicate_ack-IsSound :
      (cum_ack : ℕ) (s : Sender N) (sent : List Payload)
      → IsSound s sent
      → IsSound (duplicate_ack io cum_ack s) sent
        × ((duplicate_ack io cum_ack s).send_queue ≡ s.send_queue)
  unfolding duplicate_ack
  duplicate_ack-IsSound cum_ack s sent v =
      let s' = count_duplicate io cum_ack s in
      let still = count_duplicate-Still cum_ack s in
      let v' = Still-IsSound still sent v in
      elim (Bool-cases (eqb s'.dup_acks arp_dup_ack_threshold)) [
        | inl e ↦
            rw e (let (a, b) = fast_retransmit-IsSound cum_ack s' sent v' in (a, b ∙ still.queue))
        | inr e ↦ rw e (v', still.queue)
      ]

  accepted-Sends :
      (cum_ack : ℕ) (r : ℕ × Sender N) (sent : List Payload)
      → IsSound r.1 sent
      → Sends r.1 (accepted io cum_ack r) sent
  unfolding accepted
  accepted-Sends cum_ack (acked, s) sent v = elim (Bool-cases (ltb 0 acked)) [
    | inl e ↦ rw e (new_ack-Sends cum_ack acked s sent v)
    | inr e ↦ rw e (elim (Bool-cases (eqb (length s.in_flight) 0)) [
      | inl z ↦ rw z (Sends-of s s sent (v, refl))
      | inr z ↦ rw z (Sends-of s _ sent (duplicate_ack-IsSound cum_ack s sent v))
    ])
  ]

  -- The sender keeps its invariant under an acknowledgement of no more than was sent, and the
  -- highest number acknowledged becomes that of the acknowledgement, where it is greater: it forgets
  -- no unacknowledged segment, and what it puts on the wire is what the application gave it.
  pub on_ack-Sends :
      (cum_ack advertised : ℕ) (s : Sender N) (sent : List Payload)
      → IsSound s sent
      → cum_ack ≤ length sent
      → Sends s (on_ack io cum_ack advertised s) sent
        × ((on_ack io cum_ack advertised s).highest_ack ≡ max s.highest_ack cum_ack)
  unfolding on_ack
  on_ack-Sends cum_ack advertised s sent v h =
      let s' : Sender N = record s {
        rwnd = if ltb 0 advertised then advertised else arp_default_rwnd;
      } in
      let (v', q) =
        accept_cumulative_ack-IsSound io cum_ack s' sent
          (IsSound-of s s' sent refl refl refl refl v) h in
      let w = accepted-Sends cum_ack (accept_cumulative_ack io cum_ack s') sent v' in
      (
        record { more = w.more; queue = sym q ∙ w.queue; sound = w.sound },
        on_ack-highest io cum_ack advertised s,
      )
