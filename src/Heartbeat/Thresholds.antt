-- ===== src/Heartbeat/Thresholds.antt =====
-- The status of a peer is what its misses say, after every operation.
use ccn.Prelude.{
  nat_key, string_key, ℕ, ◌≤◌, ◌<◌, ◌≡◌, ◌↔◌, refl, List, [], ◌∷◌, Option, none, some, String,
  JsMap, map_get, map_has, arith, inl, inr, Bool-cases, Option-cases, AllValues, AllValues-set,
  AllValues-delete, sym,
}
use ccn.Heartbeat.{
  healthy, stale, unhealthy, dead, Options, classify, PeerEntry, HeartbeatIo, Tracker, Message,
  hb_pong, new_tracker, publish, new_entry, refresh, add_peer, remove_peer, answer, pong_at,
  handle_pong, miss, account, ping, tick_entry, tick_all, tick,
}

-- The thresholds in order, none at zero.
pub record IsOrdered (o : Options) : Type 0 where
  pub some_stale : 0 < o.stale_after_misses
  pub stale_unhealthy : o.stale_after_misses ≤ o.unhealthy_after_misses
  pub unhealthy_dead : o.unhealthy_after_misses ≤ o.dead_after_misses

-- With the thresholds in order, each status stands for one range of misses.
pub classify_ranges :
    (o : Options) (n : ℕ)
    → IsOrdered o
    → ((classify o n ≡ healthy) ↔ (n < o.stale_after_misses))
      × ((classify o n ≡ stale) ↔ ((o.stale_after_misses ≤ n) × (n < o.unhealthy_after_misses)))
      × ((classify o n ≡ unhealthy) ↔ ((o.unhealthy_after_misses ≤ n) × (n < o.dead_after_misses)))
      × ((classify o n ≡ dead) ↔ (o.dead_after_misses ≤ n))
unfolding classify
classify_ranges o n h = ground arith

classify-zero : (o : Options) → IsOrdered o → classify o 0 ≡ healthy
unfolding classify
classify-zero o h = ground arith

-- The calls of a tracker.
pub data Call (Channel : Type 0) : Type 0 where
  adds : String → Channel → Call Channel
  removes : String → Call Channel
  pongs : ℕ → String → Message → Call Channel
  ticks : HeartbeatIo Channel → Call Channel

module _ {Channel : Type 0} where
  abbrev pub IsClassified : Options → PeerEntry Channel → Type 0
  IsClassified o e = e.state.status ≡ classify o e.state.consecutive_misses

  tick_entry-IsClassified :
      (io : HeartbeatIo Channel) (o : Options) (now later : ℕ) (e : PeerEntry Channel)
      → IsClassified o e
      → IsClassified o (tick_entry io o now later e).0
  unfolding tick_entry account ping miss
  tick_entry-IsClassified io o now later e h = ground arith

  tick_all-IsClassified :
      (io : HeartbeatIo Channel) (o : Options) (clock : ℕ) (m : JsMap String (PeerEntry Channel))
      → AllValues (IsClassified o) m
      → AllValues (IsClassified o) (tick_all io o clock m).0
  unfolding tick_all
  tick_all-IsClassified io o clock [] k = tt
  tick_all-IsClassified io o clock ((id, e) ∷ m) (p, k) =
      (tick_entry-IsClassified io o _ _ e p, tick_all-IsClassified io o _ m k)

  -- Every peer's status is the one of its misses.
  abbrev pub IsConsistent : Tracker Channel → Type 0
  IsConsistent t = AllValues (IsClassified t.opts) t.peers

  publish_lem : (t : Tracker Channel) → ((publish t).peers ≡ t.peers) × ((publish t).opts ≡ t.opts)
  unfolding publish
  publish_lem t = ground arith

  publish-IsConsistent : (t : Tracker Channel) → IsConsistent t → IsConsistent (publish t)
  publish-IsConsistent t h = rw ((publish_lem t).0, (publish_lem t).1) h

  pub step : Call Channel → Tracker Channel → Tracker Channel
  step (adds id sender) t = add_peer id sender t
  step (removes id) t = remove_peer id t
  step (pongs now id m) t = (handle_pong now id m t).0
  step (ticks io) t = tick io t

  pub run : List (Call Channel) → Tracker Channel → Tracker Channel
  run [] t = t
  run (c ∷ cs) t = run cs (step c t)

  pong_at-opts :
      (now : ℕ) (id : String) (pong : ℕ) (e? : Option (PeerEntry Channel)) (t : Tracker Channel)
      → (pong_at now id pong e? t).0.opts ≡ t.opts
  unfolding pong_at publish
  pong_at-opts now id pong none t = refl
  pong_at-opts now id pong (some d) t = ground arith

  step-opts : (c : Call Channel) (t : Tracker Channel) → (step c t).opts ≡ t.opts
  unfolding step add_peer remove_peer handle_pong tick publish
  step-opts (adds id sender) t = ground arith
  step-opts (removes id) t = ground arith
  step-opts (pongs now id (hb_pong pong time)) t = pong_at-opts now id pong (map_get id t.peers) t
  step-opts (pongs now id _) t = refl
  step-opts (ticks io) t = ground arith

  add_peer-IsConsistent :
      (id : String) (sender : Channel) (t : Tracker Channel)
      → IsOrdered t.opts
      → IsConsistent t
      → IsConsistent (add_peer id sender t)
  unfolding add_peer new_entry refresh
  add_peer-IsConsistent id sender t o h = elim (Option-cases (map_get id t.peers)) [
    | inl e ↦
        rw (e, add_peer)
          (publish-IsConsistent _
            (AllValues-set (IsClassified t.opts) id _ t.peers (sym (classify-zero t.opts o)) h))
    | inr (d, e) ↦
        rw (e, add_peer)
          (publish-IsConsistent _
            (AllValues-set (IsClassified t.opts) id _ t.peers (sym (classify-zero t.opts o)) h))
  ]

  remove_peer-IsConsistent :
      (id : String) (t : Tracker Channel) → IsConsistent t → IsConsistent (remove_peer id t)
  unfolding remove_peer
  remove_peer-IsConsistent id t h = elim (Bool-cases (map_has id t.peers)) [
    | inl e ↦ rw e (publish-IsConsistent _ (AllValues-delete (IsClassified t.opts) id t.peers h))
    | inr e ↦ rw e h
  ]

  pong_at-IsConsistent :
      (now : ℕ) (id : String) (pong : ℕ) (e? : Option (PeerEntry Channel)) (t : Tracker Channel)
      → IsOrdered t.opts
      → IsConsistent t
      → IsConsistent (pong_at now id pong e? t).0
  unfolding pong_at answer
  pong_at-IsConsistent now id pong none t o h = h
  pong_at-IsConsistent now id pong (some d) t o h = elim (Option-cases (map_get pong d.pending)) [
    | inl e ↦ rw (e, pong_at) h
    | inr (p, e) ↦
        rw (e, pong_at)
          (publish-IsConsistent _
            (AllValues-set (IsClassified t.opts) id _ t.peers (sym (classify-zero t.opts o)) h))
  ]

  tick-IsConsistent :
      (io : HeartbeatIo Channel) (t : Tracker Channel) → IsConsistent t → IsConsistent (tick io t)
  unfolding tick
  tick-IsConsistent io t h =
      let k = tick_all-IsClassified io t.opts t.clock t.peers h in
      elim (Bool-cases (tick_all io t.opts t.clock t.peers).1) [
        | inl e ↦ rw e (publish-IsConsistent _ k)
        | inr e ↦ rw e k
      ]

  step-IsConsistent :
      (c : Call Channel) (t : Tracker Channel)
      → IsOrdered t.opts
      → IsConsistent t
      → IsConsistent (step c t)
  unfolding step handle_pong
  step-IsConsistent (adds id sender) t o h = add_peer-IsConsistent id sender t o h
  step-IsConsistent (removes id) t o h = remove_peer-IsConsistent id t h
  step-IsConsistent (pongs now id (hb_pong pong time)) t o h =
      pong_at-IsConsistent now id pong (map_get id t.peers) t o h
  step-IsConsistent (pongs now id _) t o h = h
  step-IsConsistent (ticks io) t o h = tick-IsConsistent io t h

  run-of_IsConsistent :
      (cs : List (Call Channel)) (t : Tracker Channel)
      → IsOrdered t.opts
      → IsConsistent t
      → IsConsistent (run cs t)
  unfolding run
  run-of_IsConsistent [] t o h = h
  run-of_IsConsistent (c ∷ cs) t o h =
      run-of_IsConsistent cs (step c t) (rw (step-opts c t) o) (step-IsConsistent c t o h)

  -- After any calls on a new tracker whose thresholds are in order, the status of every peer is the
  -- one that `classify` gives for its consecutive misses.
  pub run-IsConsistent :
      (o : Options) (cs : List (Call Channel)) → IsOrdered o → IsConsistent (run cs (new_tracker o))
  unfolding new_tracker
  run-IsConsistent o cs h = run-of_IsConsistent cs (new_tracker o) h tt
