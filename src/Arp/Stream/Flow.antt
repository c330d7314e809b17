-- ===== src/Arp/Stream/Flow.antt =====
-- One direction of a connection: what the sender of `x` was told, and what the receiver of `y` has.
use ccn.Prelude.{
  nat_key, ℕ, ◌%◌, ◌^◌, ◌≤◌, ◌≡◌, refl, ap, sym, subst, ◌∙◌, List, [], ◌∷◌, ◌++◌, append_assoc,
  append-nil, length, get_elem?, arith, All, All-In, In, take, drop, get_elem?-append,
  take-append_le, All-mono, take-append-drop, length-append,
}
use ccn.Number.{Number}
use ccn.Arp.Frame.{ArpFrame}
use ccn.Arp.Frame.RoundTrip.{truncated}
use ccn.Arp.SenderState.{Payload, Sender, SenderIo}
use ccn.Arp.Sender.{enqueue, on_ack, tick}
use ccn.Arp.Sender.Sound.{IsSound, IsSound-of, IsTrue, Sends, enqueue-Sends}
use ccn.Arp.Sender.Acks.{on_ack-Sends}
use ccn.Arp.Sender.Timer.{tick-Sends}
use ccn.Arp.Receiver.{Receiver, on_data}
use ccn.Arp.Receiver.InOrder.{IsInOrder, IsAck, get_elem?-below}
use ccn.Arp.Receiver.Delivery.{on_data-IsInOrder}
use ccn.Arp.Session.{ArpSession, send, enqueue_all, segments}
use ccn.Arp.Session.Segments.{concat, IsSegment, segments-concat}

-- `sent` is what `x` has put on the wire, `told` the bytes that it was given.
pub record Flow {N : Number} (x : Sender N) (y : Receiver N) (told : List ℕ) (sent : List Payload)
    : Type 0 where
  pub sound : IsSound x sent
  pub order : IsInOrder y sent
  pub stream : told ≡ concat (sent ++ x.send_queue)

concat-append : (ps qs : List Payload) → concat (ps ++ qs) ≡ concat ps ++ concat qs
concat-append [] qs = refl
concat-append (p ∷ ps) qs =
    ap (◌++◌ p) (concat-append ps qs) ∙ sym (append_assoc p (concat ps) (concat qs))

IsInOrder-append :
    {N : Number} (y : Receiver N) (sent more : List Payload)
    → IsInOrder y sent
    → IsInOrder y (sent ++ more)
IsInOrder-append y sent more v = record {
  prefix = v.prefix ∙ sym (take-append_le sent more y.expected_seq v.received);
  received = omega (arith, v.received, length-append sent more);
  buffered = All-mono y.out_of_order (λ e h. (h.0, get_elem?-append sent more e.0 h.1)) v.buffered;
  distinct = v.distinct;
  acks = v.acks;
}

-- A step of the sender that neither loses nor reorders what is queued.
pub Sends-Flow :
    {N : Number} (x x' : Sender N) (y : Receiver N) (told : List ℕ) (sent : List Payload)
    → Flow x y told sent
    → (w : Sends x x' sent) → Flow x' y told (sent ++ w.more)
Sends-Flow x x' y told sent v w = record {
  sound = w.sound;
  order = IsInOrder-append y sent w.more v.order;
  stream =
      v.stream
      ∙ ap (λ q. concat (sent ++ q)) w.queue
      ∙ ap concat (sym (append_assoc sent w.more x'.send_queue));
}

-- What `y` puts in order was sent by `x`, which was told it.
abbrev pub Flows : {N : Number} → Sender N → Receiver N → List ℕ → Type 0
Flows x y told = (sent : List Payload) × Flow x y told sent

module _ {N : Number} (io : SenderIo N) where
  enqueue-Flows :
      (p : Payload) (x : Sender N) (y : Receiver N) (told : List ℕ)
      → Flows x y told
      → IsSegment p
      → Flows (enqueue io p x) y (told ++ p)
  enqueue-Flows p x y told (sent, v) h =
      let queued : Sender N = record x { send_queue = x.send_queue ++ (p ∷ []) } in
      let w = enqueue-Sends io p x sent v.sound (λ e. absurd (omega (arith, ap length e, h.0))) in
      (
        sent ++ w.more,
        Sends-Flow queued (enqueue io p x) y (told ++ p) sent
            (record {
              sound = IsSound-of x queued sent refl refl refl refl v.sound;
              order = v.order;
              stream = ap (λ t. t ++ p) v.stream ∙ joined sent x.send_queue;
            })
            w,
      )
    where
      joined :
          (sent queue : List Payload)
          → concat (sent ++ queue) ++ p ≡ concat (sent ++ (queue ++ (p ∷ [])))
      joined sent queue =
          ap (λ t. concat (sent ++ queue) ++ t) (sym (append-nil p))
          ∙ sym (concat-append (sent ++ queue) (p ∷ []))
          ∙ ap concat (append_assoc sent queue (p ∷ []))

  enqueue_all-Flows :
      (ps : List Payload) (x : Sender N) (y : Receiver N) (told : List ℕ)
      → Flows x y told
      → All IsSegment ps
      → Flows (enqueue_all io ps x) y (told ++ concat ps)
  unfolding enqueue_all
  enqueue_all-Flows [] x y told v h = rw (append-nil told) v
  enqueue_all-Flows (p ∷ ps) x y told v h =
      rw (sym (append_assoc told p (concat ps)))
        (enqueue_all-Flows ps (enqueue io p x) y (told ++ p) (enqueue-Flows p x y told v h.0) h.1)

  pub send-Flows :
      (bytes : List ℕ) (x : ArpSession N) (y : Receiver N) (told : List ℕ)
      → Flows x.sender y told
      → Flows (send io bytes x).sender y (told ++ bytes)
  unfolding send
  send-Flows bytes x y told v =
      let (joined, cut) = segments-concat bytes in
      subst (λ t. Flows (enqueue_all io (segments bytes) x.sender) y (told ++ t)) joined
        (enqueue_all-Flows (segments bytes) x.sender y told v cut)

  pub tick-Flows :
      (x : Sender N) (y : Receiver N) (told : List ℕ) → Flows x y told → Flows (tick io x) y told
  tick-Flows x y told (sent, v) =
      let w = tick-Sends io x sent v.sound in (sent ++ w.more, Sends-Flow x _ y told sent v w)

  -- An ACK of `y` reaches `x`.
  pub on_ack-Flows :
      (f : ArpFrame) (x : Sender N) (y : Receiver N) (told : List ℕ)
      → Flows x y told
      → In f y.acks
      → Flows (on_ack io (truncated f).ack (truncated f).window x) y told
  on_ack-Flows f x y told (sent, v) h =
      let acknowledged = All-In (IsAck y.expected_seq) y.acks f v.order.acks h in
      let (w, _) =
        on_ack-Sends io (truncated f).ack (truncated f).window x sent v.sound
          (omega (arith, acknowledged.1, v.order.received)) in
      (sent ++ w.more, Sends-Flow x _ y told sent v w)

-- A DATA frame of `x` reaches `y`, before the sequence numbers pass 2 ^ 32.
pub on_data-Flows :
    {N : Number} (now : N.Num) (f : ArpFrame) (x : Sender N) (y : Receiver N) (told : List ℕ)
    → Flows x y told
    → In f x.outbox
    → x.next_seq ≤ 2 ^ 32
    → Flows x (on_data now (truncated f) y) told
on_data-Flows now f x y told (sent, v) h small =
    let honest = All-In (IsTrue sent) x.outbox f v.sound.honest h in
    let below = get_elem?-below sent f.seq honest.1 in
    let whole : f.seq % 2 ^ 32 ≡ f.seq = omega (arith, below, v.sound.next) in
    (
      sent,
      record {
        sound = v.sound;
        order =
            on_data-IsInOrder now (truncated f) y sent v.order
              (omega (arith, honest.0), ap (get_elem? sent) whole ∙ honest.1);
        stream = v.stream;
      },
    )

-- What was delivered is the beginning of what was told.
pub Flows-prefix :
    {N : Number} (x : Sender N) (y : Receiver N) (told : List ℕ)
    → Flows x y told
    → (rest : List ℕ) × (told ≡ concat y.delivered ++ rest)
Flows-prefix x y told (sent, v) = (
  concat (drop y.expected_seq sent ++ x.send_queue),
  v.stream
      ∙ ap (λ t. concat (t ++ x.send_queue)) (sym (take-append-drop y.expected_seq sent))
      ∙ ap concat (append_assoc (take y.expected_seq sent) (drop y.expected_seq sent) x.send_queue)
      ∙ concat-append (take y.expected_seq sent) _
      ∙ ap (λ t. concat t ++ concat (drop y.expected_seq sent ++ x.send_queue))
          (sym v.order.prefix),
)
