-- ===== src/Arp/Stream.antt =====
-- Two ARP sessions over a channel that may lose, repeat, delay and reorder what either side sends:
-- any frame that was ever handed to `transmit` may arrive, any number of times, in any order.
pub mod Flow
pub mod Delivery
use ccn.Prelude.{ℕ, List, [], ◌++◌, In}
use ccn.Number.{Number}
use ccn.Arp.Frame.{ArpFrame, encode_frame}
use ccn.Arp.SenderState.{SenderIo}
use ccn.Arp.Session.{ArpSession, new_session, send, timer, handle_message}

-- `told_a` are the bytes that the application of `a` has sent so far, in order.
pub record System (N : Number) : Type 0 where
  pub a : ArpSession N
  pub b : ArpSession N
  pub told_a : List ℕ
  pub told_b : List ℕ

abbrev pub new_system : (N : Number) → System N
new_system N = record { a = new_session N; b = new_session N; told_a = []; told_b = [] }

-- A frame that the session has handed to its channel: DATA of its sender or an ACK of its receiver.
pub data OnWire {N : Number} (x : ArpSession N) (f : ArpFrame) : Type 0 where
  data_frame : In f x.sender.outbox → OnWire x f
  ack_frame : In f x.receiver.acks → OnWire x f

module _ {N : Number} (io_a io_b : SenderIo N) where
  pub data Step (s : System N) : System N → Type 0 where
    send_a :
        (bytes : List ℕ) → Step s (record s { a = send io_a bytes s.a; told_a = s.told_a ++ bytes })
    send_b :
        (bytes : List ℕ) → Step s (record s { b = send io_b bytes s.b; told_b = s.told_b ++ bytes })
    timer_a : Step s (record s { a = timer io_a s.a })
    timer_b : Step s (record s { b = timer io_b s.b })
    arrive_a :
        (now : N.Num) (f : ArpFrame)
        → OnWire s.b f
        → Step s (record s { a = handle_message io_a now (encode_frame f) s.a })
    arrive_b :
        (now : N.Num) (f : ArpFrame)
        → OnWire s.a f
        → Step s (record s { b = handle_message io_b now (encode_frame f) s.b })

  pub data Reach (s : System N) : System N → Type 0 where
    here : Reach s s
    next : {t u : System N} → Reach s t → Step t u → Reach s u
