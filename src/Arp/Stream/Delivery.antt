-- ===== src/Arp/Stream/Delivery.antt =====
-- The connection as a whole: a reliable, ordered stream in each direction.
use ccn.Prelude.{
  ℕ, ◌%◌, ◌^◌, ◌≤◌, ◌≡◌, refl, List, [], ◌∷◌, ◌++◌, Option, none, some, arith, All-In,
}
use native.Mathlib.Nat.{le_trans}
use ccn.Number.{Number}
use ccn.Arp.Frame.{ArpFrame, encode_frame, decode_frame, arp_frame_data, arp_frame_ack}
use ccn.Arp.Frame.RoundTrip.{truncated, decode_frame-encode_frame}
use ccn.Arp.SenderState.{Payload, Sender, SenderIo}
use ccn.Arp.Sender.{enqueue, on_ack}
use ccn.Arp.Sender.Sound.{IsTrue}
use ccn.Arp.Sender.Numbers.{enqueue-next, on_ack-next, tick-next}
use ccn.Arp.Receiver.{on_data}
use ccn.Arp.Receiver.InOrder.{IsAck}
use ccn.Arp.Session.{ArpSession, send, timer, handle_message, dispatch, enqueue_all, segments}
use ccn.Arp.Session.Segments.{concat}
use ccn.Arp.Stream.{
  System, new_system, OnWire, data_frame, ack_frame, Step, send_a, send_b, timer_a, timer_b,
  arrive_a, arrive_b, Reach, here, next,
}
use ccn.Arp.Stream.Flow.{Flows, send-Flows, tick-Flows, on_ack-Flows, on_data-Flows, Flows-prefix}

-- Both directions at once, between two sessions.
record Linked {N : Number} (x y : ArpSession N) (told_x told_y : List ℕ) : Type 0 where
  there : Flows x.sender y.receiver told_x
  back : Flows y.sender x.receiver told_y

mirror :
    {N : Number} {x y : ArpSession N} {told_x told_y : List ℕ}
    → Linked x y told_x told_y
    → Linked y x told_y told_x
mirror l = record { there = l.back; back = l.there }

module _ {N : Number} (io : SenderIo N) where
  handle_message-data :
      (now : N.Num) (f : ArpFrame) (x : ArpSession N)
      → f.type ≡ arp_frame_data
      → handle_message io now (encode_frame f) x
        ≡ record x { receiver = on_data now (truncated f) x.receiver }
  unfolding handle_message
  handle_message-data now f x e =
      let type : f.type % 256 ≡ 0 = omega arith in
      rw (decode_frame-encode_frame f, dispatch) (rw type)

  handle_message-ack :
      (now : N.Num) (f : ArpFrame) (x : ArpSession N)
      → f.type ≡ arp_frame_ack
      → handle_message io now (encode_frame f) x
        ≡ record x { sender = on_ack io (truncated f).ack (truncated f).window x.sender }
  unfolding handle_message
  handle_message-ack now f x e =
      let type : f.type % 256 ≡ 1 = omega arith in
      rw (decode_frame-encode_frame f, dispatch) (rw type)

  send-Linked :
      (bytes : List ℕ) (x y : ArpSession N) (told_x told_y : List ℕ)
      → Linked x y told_x told_y
      → Linked (send io bytes x) y (told_x ++ bytes) told_y
  unfolding send
  send-Linked bytes x y told_x told_y l = record {
    there = send-Flows io bytes x y.receiver told_x l.there;
    back = l.back;
  }

  timer-Linked :
      (x y : ArpSession N) (told_x told_y : List ℕ)
      → Linked x y told_x told_y
      → Linked (timer io x) y told_x told_y
  unfolding timer
  timer-Linked x y told_x told_y l = record {
    there = tick-Flows io x.sender y.receiver told_x l.there;
    back = l.back;
  }

  -- A frame of `y` arrives at `x`.
  arrive-Linked :
      (now : N.Num) (f : ArpFrame) (x y : ArpSession N) (told_x told_y : List ℕ)
      → Linked x y told_x told_y
      → OnWire y f
      → y.sender.next_seq ≤ 2 ^ 32
      → Linked (handle_message io now (encode_frame f) x) y told_x told_y
  arrive-Linked now f x y told_x told_y l (data_frame h) small =
      let honest = All-In (IsTrue l.back.0) y.sender.outbox f l.back.1.sound.honest h in
      rw (handle_message-data now f x honest.0) (record {
        there = l.there;
        back = on_data-Flows now f y.sender x.receiver told_y l.back h small;
      })
  arrive-Linked now f x y told_x told_y l (ack_frame h) small =
      let acknowledged =
        All-In (IsAck y.receiver.expected_seq) y.receiver.acks f l.there.1.order.acks h in
      rw (handle_message-ack now f x acknowledged.0)
        (record { there = on_ack-Flows io f x.sender y.receiver told_x l.there h; back = l.back })

  dispatch-next :
      (now : N.Num) (f? : Option ArpFrame) (x : ArpSession N)
      → x.sender.next_seq ≤ (dispatch io now f? x).sender.next_seq
  unfolding dispatch
  dispatch-next now none x = omega arith
  dispatch-next now (some f) x = ground (arith, on_ack-next io f.ack f.window x.sender)

  handle_message-next :
      (now : N.Num) (bytes : List ℕ) (x : ArpSession N)
      → x.sender.next_seq ≤ (handle_message io now bytes x).sender.next_seq
  unfolding handle_message
  handle_message-next now bytes x = dispatch-next now (decode_frame bytes) x

  enqueue_all-next :
      (ps : List Payload) (x : Sender N) → x.next_seq ≤ (enqueue_all io ps x).next_seq
  unfolding enqueue_all
  enqueue_all-next [] x = omega arith
  enqueue_all-next (p ∷ ps) x =
      omega (arith, enqueue-next io p x, enqueue_all-next ps (enqueue io p x))

module _ {N : Number} (io_a io_b : SenderIo N) where
  Step-next :
      {s t : System N}
      → Step io_a io_b s t
      → (s.a.sender.next_seq ≤ t.a.sender.next_seq) × (s.b.sender.next_seq ≤ t.b.sender.next_seq)
  unfolding send timer
  Step-next {s} (send_a bytes) = (enqueue_all-next io_a (segments bytes) s.a.sender, omega arith)
  Step-next {s} (send_b bytes) = (omega arith, enqueue_all-next io_b (segments bytes) s.b.sender)
  Step-next {s} timer_a = (tick-next io_a s.a.sender, omega arith)
  Step-next {s} timer_b = (omega arith, tick-next io_b s.b.sender)
  Step-next {s} (arrive_a now f h) =
      (handle_message-next io_a now (encode_frame f) s.a, omega arith)
  Step-next {s} (arrive_b now f h) =
      (omega arith, handle_message-next io_b now (encode_frame f) s.b)

  abbrev IsLinked : System N → Type 0
  IsLinked s = Linked s.a s.b s.told_a s.told_b

  Step-IsLinked :
      {s t : System N}
      → Step io_a io_b s t
      → s.a.sender.next_seq ≤ 2 ^ 32
      → s.b.sender.next_seq ≤ 2 ^ 32
      → IsLinked s
      → IsLinked t
  Step-IsLinked {s} (send_a bytes) ha hb l = send-Linked io_a bytes s.a s.b s.told_a s.told_b l
  Step-IsLinked {s} (send_b bytes) ha hb l =
      mirror (send-Linked io_b bytes s.b s.a s.told_b s.told_a (mirror l))
  Step-IsLinked {s} timer_a ha hb l = timer-Linked io_a s.a s.b s.told_a s.told_b l
  Step-IsLinked {s} timer_b ha hb l =
      mirror (timer-Linked io_b s.b s.a s.told_b s.told_a (mirror l))
  Step-IsLinked {s} (arrive_a now f h) ha hb l =
      arrive-Linked io_a now f s.a s.b s.told_a s.told_b l h hb
  Step-IsLinked {s} (arrive_b now f h) ha hb l =
      mirror (arrive-Linked io_b now f s.b s.a s.told_b s.told_a (mirror l) h ha)

  Reach-IsLinked :
      {s t : System N}
      → IsLinked s
      → Reach io_a io_b s t
      → t.a.sender.next_seq ≤ 2 ^ 32
      → t.b.sender.next_seq ≤ 2 ^ 32
      → IsLinked t
  Reach-IsLinked l here ha hb = l
  Reach-IsLinked l (next r st) ha hb =
      let (ga, gb) = Step-next st in
      let ha' = le_trans ga ha in
      let hb' = le_trans gb hb in Step-IsLinked st ha' hb' (Reach-IsLinked l r ha' hb')

  new_system-IsLinked : IsLinked (new_system N)
  new_system-IsLinked = record { there = empty; back = empty }
    where
      empty : Flows (new_system N).a.sender (new_system N).a.receiver []
      empty = (
        [],
        record {
          sound = record {
            next = refl;
            acked = omega arith;
            run = tt;
            content = refl;
            honest = tt;
          };
          order = record {
            prefix = refl;
            received = omega arith;
            buffered = tt;
            distinct = tt;
            acks = tt;
          };
          stream = refl;
        },
      )

  -- Whatever the channel loses, repeats, delays or reorders, and however the timers run: what
  -- either receiver has delivered is a beginning of what the other application has sent, each byte
  -- once and in order, as long as neither side has used more than 2 ^ 32 sequence numbers.
  pub delivered-IsPrefix :
      (t : System N)
      → Reach io_a io_b (new_system N) t
      → t.a.sender.next_seq ≤ 2 ^ 32
      → t.b.sender.next_seq ≤ 2 ^ 32
      → ((rest : List ℕ) × (t.told_a ≡ concat t.b.receiver.delivered ++ rest))
        × ((rest : List ℕ) × (t.told_b ≡ concat t.a.receiver.delivered ++ rest))
  delivered-IsPrefix t r ha hb =
      let l = Reach-IsLinked new_system-IsLinked r ha hb in
      (
        Flows-prefix t.a.sender t.b.receiver t.told_a l.there,
        Flows-prefix t.b.sender t.a.receiver t.told_b l.back,
      )
