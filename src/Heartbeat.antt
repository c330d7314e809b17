-- ===== src/Heartbeat.antt =====
-- frontend/src/lib/resilience/heartbeat.ts: `HeartbeatTracker`, the probe of each peer's channel.
-- Times are milliseconds of `Date.now()`. The clock, and whether a channel takes a ping, are a
-- parameter. The calls of `onUnhealthy` and of the subscribers are part of the state, the snapshots newest first
-- and the alarms oldest first.
pub mod Thresholds
pub mod Pongs
pub mod Alarms
mod Tests
use ccn.Prelude.{
  nat_key, string_key, ℕ, suc, ◌+◌, ◌-◌, ◌*◌, Bool, true, false, not, ◌&&◌, ◌||◌, List, [], ◌∷◌,
  ◌++◌, Option, none, some, String, JsMap, map_get, map_set, map_has, map_delete, length, map,
  if◌then◌else◌, ltb, leb, eqb,
}

pub data Status : Type 0 where
  healthy stale unhealthy dead : Status

pub record PeerHeartbeat : Type 0 where
  pub rtt_ms : Option ℕ
  pub last_pong_at : Option ℕ
  pub consecutive_misses : ℕ
  pub status : Status

pub record Options : Type 0 where
  pub interval_ms : ℕ
  pub unhealthy_after_misses : ℕ
  pub dead_after_misses : ℕ
  pub stale_after_misses : ℕ

abbrev pub default_options : Options
default_options = record {
  interval_ms = 5000;
  unhealthy_after_misses = 3;
  dead_after_misses = 6;
  stale_after_misses = 1;
}

pub record PendingPing : Type 0 where
  pub id : ℕ
  pub sent_at : ℕ

abbrev pub same_status : Status → Status → Bool
same_status healthy healthy = true
same_status stale stale = true
same_status unhealthy unhealthy = true
same_status dead dead = true
same_status _ _ = false

pub classify : Options → ℕ → Status
classify o misses =
    if leb o.dead_after_misses misses
    then dead
    else if leb o.unhealthy_after_misses misses
    then unhealthy
    else if leb o.stale_after_misses misses
    then stale
    else healthy

-- `Channel` stands for the function `sender` of a peer.
pub record PeerEntry (Channel : Type 0) : Type 0 where
  pub state : PeerHeartbeat
  pub sender : Channel
  pub pending : JsMap ℕ PendingPing
  pub next_ping_id : ℕ
  pub unhealthy_fired : Bool

-- `write c id t` is what the channel answers to the ping `id` at time `t`.
pub record HeartbeatIo (Channel : Type 0) : Type 0 where
  pub write : Channel → ℕ → ℕ → Bool
  pub now : ℕ → ℕ

abbrev pub Snapshot : Type 0
Snapshot = JsMap String PeerHeartbeat

pub record Tracker (Channel : Type 0) : Type 0 where
  pub opts : Options
  pub peers : JsMap String (PeerEntry Channel)
  pub subs : ℕ
  pub published : List Snapshot
  pub alarms : List String
  pub clock : ℕ

-- A ping or pong as the handlers read it. A payload of another shape is `other`.
pub data Message : Type 0 where
  hb_ping hb_pong : ℕ → ℕ → Message
  other : Message

pub handle_ping : Message → Option Message
handle_ping (hb_ping id t) = some (hb_pong id t)
handle_ping _ = none

pub drop_before : ℕ → JsMap ℕ PendingPing → JsMap ℕ PendingPing
drop_before cutoff [] = []
drop_before cutoff ((id, p) ∷ m) =
    let rest = drop_before cutoff m in if ltb p.sent_at cutoff then rest else (id, p) ∷ rest

module _ {Channel : Type 0} where
  unfoldable pub new_tracker : Options → Tracker Channel
  new_tracker o = record { opts = o; peers = []; subs = 0; published = []; alarms = []; clock = 0 }

  pub snapshot_of : JsMap String (PeerEntry Channel) → Snapshot
  snapshot_of [] = []
  snapshot_of ((id, e) ∷ m) = (id, e.state) ∷ snapshot_of m

  pub publish : Tracker Channel → Tracker Channel
  unfolding snapshot_of
  publish t = if eqb t.subs 0 then t else record t { published = snapshot_of t.peers ∷ t.published }

  unfoldable pub new_entry : Channel → PeerEntry Channel
  new_entry sender = record {
    state = record { rtt_ms = none; last_pong_at = none; consecutive_misses = 0; status = healthy };
    sender = sender;
    pending = [];
    next_ping_id = 1;
    unhealthy_fired = false;
  }

  pub refresh : Channel → PeerEntry Channel → PeerEntry Channel
  refresh sender e = record e {
    sender = sender;
    unhealthy_fired = false;
    state = record (e.state) { consecutive_misses = 0; status = healthy };
  }

  unfoldable pub add_peer : String → Channel → Tracker Channel → Tracker Channel
  unfolding new_entry refresh publish
  add_peer id sender t = elim (map_get id t.peers) [
    | none ↦ publish (record t { peers = map_set id (new_entry sender) t.peers })
    | some e ↦ publish (record t { peers = map_set id (refresh sender e) t.peers })
  ]

  unfoldable pub remove_peer : String → Tracker Channel → Tracker Channel
  unfolding publish
  remove_peer id t =
      if map_has id t.peers then publish (record t { peers = map_delete id t.peers }) else t

  -- The entry of a peer whose ping was answered at `now`.
  pub answer : ℕ → ℕ → PendingPing → PeerEntry Channel → PeerEntry Channel
  answer now id ping e = record e {
    pending = map_delete id e.pending;
    state = record {
      rtt_ms = some (now - ping.sent_at);
      last_pong_at = some now;
      consecutive_misses = 0;
      status = healthy;
    };
    unhealthy_fired = false;
  }

  pub pong_at :
      ℕ → String → ℕ → Option (PeerEntry Channel) → Tracker Channel → Tracker Channel × Bool
  unfolding answer publish
  pong_at now id pong none t = (t, false)
  pong_at now id pong (some e) t = elim (map_get pong e.pending) [
    | none ↦ (t, false)
    | some ping ↦ (publish (record t { peers = map_set id (answer now pong ping e) t.peers }), true)
  ]

  unfoldable pub handle_pong : ℕ → String → Message → Tracker Channel → Tracker Channel × Bool
  unfolding pong_at
  handle_pong now id (hb_pong pong time) t = pong_at now id pong (map_get id t.peers) t
  handle_pong now id _ t = (t, false)

  -- One more miss, and whether the status changed.
  pub miss : Options → PeerEntry Channel → PeerEntry Channel × Bool
  unfolding classify
  miss o e =
      let misses = suc e.state.consecutive_misses in
      let next = classify o misses in
      (
        record e { state = record (e.state) { consecutive_misses = misses; status = next } },
        not (same_status e.state.status next),
      )

  -- The account of the round before: the entry, whether its status changed, and whether the alarm
  -- goes off.
  pub account : Options → ℕ → PeerEntry Channel → PeerEntry Channel × Bool × Bool
  unfolding miss drop_before
  account o now e =
      if ltb 0 (length e.pending)
      then (let cutoff = now - o.interval_ms * (o.dead_after_misses + 1) in
          let (e', changed) = miss o (record e { pending = drop_before cutoff e.pending }) in
          let alarm = same_status e'.state.status unhealthy && not e'.unhealthy_fired in
          (if alarm then record e' { unhealthy_fired = true } else e', changed, alarm))
      else (e, false, false)

  -- The ping of this round. A channel that does not take it counts as a miss.
  pub ping : HeartbeatIo Channel → Options → ℕ → PeerEntry Channel → PeerEntry Channel × Bool
  unfolding miss
  ping io o now e =
      let id = e.next_ping_id in
      let e' = record e { next_ping_id = suc id } in
      if io.write e.sender id now
      then (
        record e' { pending = map_set id (record { id = id; sent_at = now }) e'.pending },
        false,
      )
      else miss o e'

  -- The body of the loop of `tick`, at the two times that it reads.
  unfoldable pub tick_entry :
      HeartbeatIo Channel → Options → ℕ → ℕ → PeerEntry Channel → PeerEntry Channel × Bool × Bool
  unfolding account ping
  tick_entry io o now later e =
      let (e₁, changed₁, alarm) = account o now e in
      let (e₂, changed₂) = ping io o later e₁ in (e₂, changed₁ || changed₂, alarm)

  -- The loop over the peers: the entries, whether a status changed, and the peers whose alarm went
  -- off.
  pub tick_all :
      HeartbeatIo Channel
      → Options
      → ℕ
      → JsMap String (PeerEntry Channel)
      → JsMap String (PeerEntry Channel) × Bool × List String
  unfolding tick_entry
  tick_all io o clock [] = ([], false, [])
  tick_all io o clock ((id, e) ∷ m) =
      let (e', changed, alarm) = tick_entry io o (io.now clock) (io.now (suc clock)) e in
      let (m', changed', alarms) = tick_all io o (suc (suc clock)) m in
      ((id, e') ∷ m', changed || changed', if alarm then id ∷ alarms else alarms)

  unfoldable pub tick : HeartbeatIo Channel → Tracker Channel → Tracker Channel
  unfolding tick_all publish
  tick io t =
      let (peers, changed, alarms) = tick_all io t.opts t.clock t.peers in
      let t' = record t {
        peers = peers;
        alarms = t.alarms ++ alarms;
        clock = t.clock + 2 * length t.peers;
      } in
      if changed then publish t' else t'
