-- ===== src/Arp/Session.antt =====
-- frontend/src/lib/arpSession.ts: `ArpSession` joins a sender and a receiver over one data channel.
-- The channel and the loss injector are arguments of `transmit`: whether the channel is open,
-- whether the random draw loses the frame, and whether `dc.send` throws.
pub mod Segments
pub mod PacketLog
use ccn.Prelude.{
  ℕ, zero, suc, ◌+◌, ◌-◌, ◌<◌, min, Bool, true, false, ◌&&◌, not, List, [], ◌∷◌, ◌++◌, Option, none,
  some, length, take, drop, if◌then◌else◌, ltb, eqb,
}
use ccn.Number.{Number}
use ccn.Arp.Frame.{ArpFrame, arp_frame_data, arp_frame_ack, encode_frame, decode_frame}
use ccn.Arp.SenderState.{Payload, Sender, SenderIo, PacketLogEntry, new_sender}
use ccn.Arp.Sender.{enqueue, on_ack, tick}
use ccn.Arp.Receiver.{Receiver, new_receiver, on_data}

abbrev pub arp_mss : ℕ
arp_mss = 1024

abbrev pub packet_log_max : ℕ
packet_log_max = 200

-- `bytes.subarray(from, to)`.
abbrev pub subarray : ℕ → ℕ → List ℕ → List ℕ
subarray from to bytes = take (to - from) (drop from bytes)

-- The segments of `send`, from the offset on. The offset grows by at least one, so that the length
-- is enough fuel.
segments_from : ℕ → ℕ → List ℕ → List Payload
segments_from zero off bytes = []
segments_from (suc fuel) off bytes =
    if ltb off (length bytes)
    then subarray off (min (off + arp_mss) (length bytes)) bytes
      ∷ segments_from fuel (off + arp_mss) bytes
    else []

unfoldable pub segments : List ℕ → List Payload
unfolding segments_from
segments bytes = segments_from (length bytes) 0 bytes

-- The ring buffer of the visualizer, oldest first: `push` and then `splice`.
pub log_packet : {A : Type 0} → A → List A → List A
log_packet e entries =
    let entries' = entries ++ (e ∷ []) in
    if ltb packet_log_max (length entries')
    then drop (length entries' - packet_log_max) entries'
    else entries'

-- The calls of `log`, one after another.
pub log_all : {A : Type 0} → List A → List A → List A
log_all [] entries = entries
log_all (e ∷ es) entries = log_all es (log_packet e entries)

-- The bytes that go to the channel, and `none` where `transmit` answers false.
unfoldable pub transmit : Bool → Bool → Bool → ArpFrame → Option (List ℕ)
transmit is_open lost throws frame =
    if not is_open
    then none
    else if eqb frame.type arp_frame_data && lost
    then none
    else if throws
    then none
    else some (encode_frame frame)

pub record ArpSession (N : Number) : Type 0 where
  pub sender : Sender N
  pub receiver : Receiver N

abbrev pub new_session : (N : Number) → ArpSession N
new_session N = record { sender = new_sender N; receiver = new_receiver N }

module _ {N : Number} (io : SenderIo N) where
  unfoldable pub enqueue_all : List Payload → Sender N → Sender N
  enqueue_all [] s = s
  enqueue_all (p ∷ ps) s = enqueue_all ps (enqueue io p s)

  unfoldable pub send : List ℕ → ArpSession N → ArpSession N
  unfolding enqueue_all
  send bytes a = record a { sender = enqueue_all (segments bytes) a.sender }

  -- What the timer of `start` calls.
  unfoldable pub timer : ArpSession N → ArpSession N
  timer a = record a { sender = tick io a.sender }

  unfoldable pub dispatch : N.Num → Option ArpFrame → ArpSession N → ArpSession N
  dispatch now none a = a
  dispatch now (some frame) a =
      if eqb frame.type arp_frame_data
      then record a { receiver = on_data now frame a.receiver }
      else if eqb frame.type arp_frame_ack
      then record a { sender = on_ack io frame.ack frame.window a.sender }
      else a

  -- An `ArrayBuffer` that arrives on the channel.
  unfoldable pub handle_message : N.Num → List ℕ → ArpSession N → ArpSession N
  unfolding dispatch
  handle_message now bytes a = dispatch now (decode_frame bytes) a
