-- ===== src/Arp/Sender/Sound.antt =====
-- What `ArpSender` keeps: the run of unacknowledged segments, and only true frames on the wire.
use ccn.Prelude.{
  nat_key, ◌+◌, ◌≤◌, ◌≡◌, refl, ap, sym, ◌∙◌, get_elem?-last, ◌≢◌, length-drop, List, [], ◌∷◌, ◌++◌,
  append-nil, append_assoc, some, length, drop, get_elem?, arith, inl, inr, Bool-cases, All,
  All-mono, map_set_new, length-append, drop-append_le, get_elem?-append,
}
use ccn.Number.{Number}
use ccn.Arp.Frame.{ArpFrame, arp_frame_data}
use ccn.Arp.SenderState.{Payload, Sender, SenderIo}
use ccn.Arp.Sender.{send_fresh, pump_loop, pump, enqueue}
use ccn.Arp.Sender.Run.{
  IsRun, payloads, length-payloads, IsRun-has_above, IsRun-append, payloads-append,
}

-- A DATA frame that carries the segment of its number.
abbrev pub IsTrue : List Payload → ArpFrame → Type 0
IsTrue sent f = (f.type ≡ arp_frame_data) × (get_elem? sent f.seq ≡ some f.payload)

-- `sent` is what was put on the wire so far, each segment once, in order.
pub record IsSound {N : Number} (s : Sender N) (sent : List Payload) : Type 0 where
  pub next : s.next_seq ≡ length sent
  pub acked : s.highest_ack ≤ length sent
  pub run : IsRun s.highest_ack s.in_flight
  pub content : payloads s.in_flight ≡ drop s.highest_ack sent
  pub honest : All (IsTrue sent) s.outbox

-- The step from `s` to `s'` sent the segments `more` from the queue, and neither lost nor
-- reordered any.
pub record Sends {N : Number} (s s' : Sender N) (sent : List Payload) : Type 0 where
  pub more : List Payload
  pub queue : s.send_queue ≡ more ++ s'.send_queue
  pub sound : IsSound s' (sent ++ more)

pub IsTrue-append :
    (sent more : List Payload) (f : ArpFrame) → IsTrue sent f → IsTrue (sent ++ more) f
IsTrue-append sent more f (a, b) = (a, get_elem?-append sent more f.seq b)

-- The run reaches from the last number acknowledged to the last number sent.
pub IsSound-length :
    {N : Number} (s : Sender N) (sent : List Payload)
    → IsSound s sent
    → s.highest_ack + length s.in_flight ≡ length sent
IsSound-length s sent v = omega (
  arith,
  v.acked,
  length-payloads s.in_flight,
  ap length v.content,
  length-drop s.highest_ack sent,
)

-- A step that leaves the numbers, the window and the wire alone keeps the invariant.
pub IsSound-of :
    {N : Number} (s s' : Sender N) (sent : List Payload)
    → s'.next_seq ≡ s.next_seq
    → s'.highest_ack ≡ s.highest_ack
    → s'.in_flight ≡ s.in_flight
    → s'.outbox ≡ s.outbox
    → IsSound s sent
    → IsSound s' sent
IsSound-of s s' sent n h f o v = record {
  next = n ∙ v.next;
  acked = rw h v.acked;
  run = rw (h, f) v.run;
  content = rw (h, f) v.content;
  honest = rw o v.honest;
}

module _ {N : Number} (io : SenderIo N) where
  send_fresh-IsSound :
      (payload : Payload) (rest : List Payload) (s : Sender N) (sent : List Payload)
      → IsSound s sent
      → IsSound (send_fresh io payload rest s) (sent ++ (payload ∷ []))
  unfolding send_fresh
  send_fresh-IsSound payload rest s sent v =
      let full = IsSound-length s sent v in
      let above =
        IsRun-has_above s.highest_ack s.next_seq s.in_flight v.run (omega (arith, v.next)) in
      record {
        next = omega (arith, v.next, length-append sent (payload ∷ []));
        acked = omega (arith, v.acked, length-append sent (payload ∷ []));
        run = rw (map_set_new s.next_seq _ s.in_flight above) (
            IsRun-append s.highest_ack s.next_seq s.in_flight _ v.run (omega (arith, v.next)) refl);
        content = rw (map_set_new s.next_seq _ s.in_flight above) (
            payloads-append s.in_flight s.next_seq _
            ∙ ap (λ t. t ++ (payload ∷ [])) v.content
            ∙ sym (drop-append_le sent (payload ∷ []) s.highest_ack v.acked));
        honest = (
          (refl, rw v.next (get_elem?-last sent payload)),
          All-mono s.outbox (IsTrue-append sent (payload ∷ [])) v.honest,
        );
      }

  pump_loop-Sends :
      (window : N.Num) (queue : List Payload) (s : Sender N) (sent : List Payload)
      → s.send_queue ≡ queue
      → IsSound s sent
      → Sends s (pump_loop io window queue s) sent
  unfolding pump_loop
  pump_loop-Sends window [] s sent e v = record {
    more = [];
    queue = refl;
    sound = rw (append-nil sent) v;
  }
  pump_loop-Sends window (p ∷ rest) s sent e v =
      elim (Bool-cases (N.lt (N.of_nat (length s.in_flight)) window)) [
        | inl h ↦
            rw (h, pump_loop)
              (again (
                pump_loop-Sends window rest (send_fresh io p rest s) (sent ++ (p ∷ [])) refl
                  (send_fresh-IsSound p rest s sent v)))
        | inr h ↦
            rw (h, pump_loop) (record { more = []; queue = refl; sound = rw (append-nil sent) v })
      ]
    where
      again :
          Sends
            (send_fresh io p rest s)
            (pump_loop io window rest (send_fresh io p rest s))
            (sent ++ (p ∷ []))
          → Sends s (pump_loop io window rest (send_fresh io p rest s)) sent
      again w = record {
        more = p ∷ w.more;
        queue = e ∙ ap (◌∷◌ p) w.queue;
        sound = rw (append_assoc sent (p ∷ []) w.more) at w.sound;
      }

  pub pump-Sends : (s : Sender N) (sent : List Payload) → IsSound s sent → Sends s (pump io s) sent
  unfolding pump
  pump-Sends s sent v = pump_loop-Sends _ s.send_queue s sent refl v

  -- Enqueuing a payload that is not empty keeps the invariant of the sender: what was sent is longer
  -- by a beginning of the queue with the payload behind it, the rest stays queued, and the run in
  -- flight and every frame sent agree with it.
  pub enqueue-Sends :
      (payload : Payload) (s : Sender N) (sent : List Payload)
      → IsSound s sent
      → payload ≢ []
      → Sends (record s { send_queue = s.send_queue ++ (payload ∷ []) }) (enqueue io payload s) sent
  unfolding enqueue
  enqueue-Sends [] s sent v h = absurd (h refl)
  enqueue-Sends (b ∷ payload) s sent v h = pump-Sends _ sent (record {
    next = v.next;
    acked = v.acked;
    run = v.run;
    content = v.content;
    honest = v.honest;
  })
