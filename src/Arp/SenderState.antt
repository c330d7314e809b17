-- ===== src/Arp/SenderState.antt =====
-- frontend/src/lib/arpProtocol.ts: the state of `ArpSender`, its constants and its callbacks. The
-- callbacks of `SenderEmitArgs` are a parameter: `send` answers from the frames that it was given
-- before, and `now` from the number of times that the clock was read. The state keeps what the
-- callbacks were given, newest first.
use ccn.Prelude.{nat_key, ℕ, Bool, List, [], Option, none, JsMap}
use ccn.Number.{Number}
use ccn.Arp.Frame.{ArpFrame, arp_frame_data}

pub data Direction : Type 0 where
  tx rx : Direction

pub data PacketType : Type 0 where
  data_packet ack_packet : PacketType

pub data SenderMode : Type 0 where
  slow_start cong_avoid fast_recovery : SenderMode

abbrev pub arp_initial_cwnd : ℕ
arp_initial_cwnd = 1

abbrev pub arp_initial_ssthresh : ℕ
arp_initial_ssthresh = 64

abbrev pub arp_initial_rto_ms : ℕ
arp_initial_rto_ms = 1000

abbrev pub arp_min_rto_ms : ℕ
arp_min_rto_ms = 100

abbrev pub arp_max_rto_ms : ℕ
arp_max_rto_ms = 30_000

abbrev pub arp_dup_ack_threshold : ℕ
arp_dup_ack_threshold = 3

abbrev pub arp_default_rwnd : ℕ
arp_default_rwnd = 256

-- A segment of the application's data, as bytes.
abbrev pub Payload : Type 0
Payload = List ℕ

module _ (N : Number) where
  pub record PacketLogEntry : Type 0 where
    pub t : N.Num
    pub dir : Direction
    pub type : PacketType
    pub seq : ℕ
    pub ack : ℕ
    pub bytes : ℕ
    pub retransmit : Bool
    pub drop : Bool

  pub record InFlight : Type 0 where
    pub seq : ℕ
    pub payload : Payload
    pub sent_at : N.Num
    pub retransmitted : Bool

  pub record SenderIo : Type 0 where
    pub send : List ArpFrame → ArpFrame → Bool
    pub now : ℕ → N.Num

  -- `last_dup_ack_seq` is `none` for -1.
  pub record Sender : Type 0 where
    pub cwnd : N.Num
    pub ssthresh : N.Num
    pub rtt_srtt : N.Num
    pub rtt_var : N.Num
    pub rto : N.Num
    pub mode : SenderMode
    pub bytes_acked : ℕ
    pub bytes_sent : ℕ
    pub retransmits : ℕ
    pub fast_retransmits : ℕ
    pub rto_expiries : ℕ
    pub dup_acks : ℕ
    pub in_flight : JsMap ℕ InFlight
    pub send_queue : List Payload
    pub next_seq : ℕ
    pub highest_ack : ℕ
    pub last_dup_ack_seq : Option ℕ
    pub rwnd : ℕ
    pub outbox : List ArpFrame
    pub log : List PacketLogEntry
    pub clock : ℕ

  abbrev pub new_sender : Sender
  new_sender = record {
    cwnd = N.of_nat arp_initial_cwnd;
    ssthresh = N.of_nat arp_initial_ssthresh;
    rtt_srtt = N.of_nat 0;
    rtt_var = N.of_nat 0;
    rto = N.of_nat arp_initial_rto_ms;
    mode = slow_start;
    bytes_acked = 0;
    bytes_sent = 0;
    retransmits = 0;
    fast_retransmits = 0;
    rto_expiries = 0;
    dup_acks = 0;
    in_flight = [];
    send_queue = [];
    next_seq = 0;
    highest_ack = 0;
    last_dup_ack_seq = none;
    rwnd = arp_default_rwnd;
    outbox = [];
    log = [];
    clock = 0;
  }

abbrev pub data_frame : ℕ → Payload → ArpFrame
data_frame seq payload = record {
  type = arp_frame_data;
  seq = seq;
  ack = 0;
  window = arp_default_rwnd;
  payload = payload;
}
