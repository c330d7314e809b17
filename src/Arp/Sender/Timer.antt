-- ===== src/Arp/Sender/Timer.antt =====
-- `tick` of `ArpSender`: the oldest segment is sent again when its timeout has passed.
use ccn.Prelude.{
  nat_key, ℕ, suc, ◌≡◌, refl, ◌⊎◌, List, [], ◌∷◌, Option, none, some, JsMap, map_get, length, eqb,
  inl, inr, Bool-cases, In,
}
use ccn.Number.{Number}
use ccn.Arp.SenderState.{Payload, InFlight, Sender, SenderIo}
use ccn.Arp.Sender.{retransmit_segment, oldest, expire, tick_at, tick}
use ccn.Arp.Sender.Run.{segments, IsRun-In}
use ccn.Arp.Sender.Sound.{IsSound, Sends, IsSound-of}
use ccn.Arp.Sender.Retransmit.{retransmit_segment-IsSound, Sends-of}

module _ {N : Number} (io : SenderIo N) where
  oldest-In :
      (best : Option (InFlight N)) (m : JsMap ℕ (InFlight N)) (seg : InFlight N)
      → oldest io best m ≡ some seg
      → (best ≡ some seg) ⊎ In seg (segments m)
  unfolding oldest
  oldest-In best [] seg e = inl e
  oldest-In none ((k, s) ∷ m) seg e = elim (oldest-In (some s) m seg e) [
    | inl p ↦ inr (inl (cc))
    | inr p ↦ inr (inr p)
  ]
  oldest-In (some b) ((k, s) ∷ m) seg e = elim (Bool-cases (N.lt s.sent_at b.sent_at)) [
    | inl t ↦ elim (oldest-In (some s) m seg (rw t at e)) [
      | inl p ↦ inr (inl (cc))
      | inr p ↦ inr (inr p)
    ]
    | inr t ↦ elim (oldest-In (some b) m seg (rw t at e)) [ inl p ↦ inl p | inr p ↦ inr (inr p) ]
  ]

  expire-IsSound :
      (seg : InFlight N) (s : Sender N) (sent : List Payload)
      → IsSound s sent
      → map_get seg.seq s.in_flight ≡ some seg
      → IsSound (expire io seg s) sent × ((expire io seg s).send_queue ≡ s.send_queue)
  unfolding expire retransmit_segment
  expire-IsSound seg s sent v e =
      (retransmit_segment-IsSound io seg _ sent (IsSound-of s _ sent refl refl refl refl v) e, refl)

  tick_at-Sends :
      (now : N.Num) (seg? : Option (InFlight N)) (s : Sender N) (sent : List Payload)
      → IsSound s sent
      → ((seg : InFlight N) → seg? ≡ some seg → In seg (segments s.in_flight))
      → Sends s (tick_at io now seg? s) sent
  unfolding tick_at
  tick_at-Sends now none s sent v h = Sends-of s s sent (v, refl)
  tick_at-Sends now (some seg) s sent v h =
      elim (Bool-cases (N.lt (N.minus now seg.sent_at) s.rto)) [
        | inl e ↦ rw e (Sends-of s s sent (v, refl))
        | inr e ↦ rw e (
            Sends-of s _ sent (
              expire-IsSound seg s sent v
                (IsRun-In s.highest_ack s.in_flight seg v.run (h seg refl))))
      ]

  -- A tick of the timer keeps the invariant of the sender: what was sent is longer by a beginning of
  -- the queue, the rest stays queued, and the run in flight and every frame sent agree with it.
  pub tick-Sends : (s : Sender N) (sent : List Payload) → IsSound s sent → Sends s (tick io s) sent
  unfolding tick
  tick-Sends s sent v = elim (Bool-cases (eqb (length s.in_flight) 0)) [
    | inl e ↦ rw e (Sends-of s s sent (v, refl))
    | inr e ↦ rw e (
        of_quiet (
          tick_at-Sends (io.now s.clock) (oldest io none s.in_flight)
            (record s { clock = suc s.clock }) sent (IsSound-of s _ sent refl refl refl refl v)
            (λ seg found. listed seg (oldest-In none s.in_flight seg found))))
  ]
    where
      listed :
          (seg : InFlight N)
          → (none ≡ some seg) ⊎ In seg (segments s.in_flight)
          → In seg (segments s.in_flight)
      listed seg (inl e) = cc
      listed seg (inr h) = h

      of_quiet :
          {s' : Sender N} → Sends (record s { clock = suc s.clock }) s' sent → Sends s s' sent
      of_quiet w = record { more = w.more; queue = w.queue; sound = w.sound }
