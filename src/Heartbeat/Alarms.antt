-- ===== src/Heartbeat/Alarms.antt =====
-- When `onUnhealthy` is called.
use ccn.Prelude.{
  nat_key, string_key, sym, ap, ◌↔◌, ◌<◌, ℕ, suc, ◌+◌, ◌≤◌, ◌≡◌, ◌≢◌, refl, true, false, List, [],
  ◌∷◌, length, if◌then◌else◌, arith, inl, inr, Bool-cases, ◌∙◌,
}
use ccn.Heartbeat.{
  Status, unhealthy, dead, Options, classify, PeerEntry, HeartbeatIo, miss, account, ping,
  tick_entry,
}

module _ {Channel : Type 0} (io : HeartbeatIo Channel) (o : Options) where
  -- The alarm of a peer goes off in a round only if it was ready, the peer had an unanswered ping,
  -- and its misses, with that one, are those of an unhealthy peer; then it is no longer ready.
  pub tick_entry_alarm :
      (now later : ℕ) (e : PeerEntry Channel)
      → (tick_entry io o now later e).2 ≡ true
      → (e.unhealthy_fired ≡ false)
        × (e.pending ≢ [])
        × (classify o (suc e.state.consecutive_misses) ≡ unhealthy)
        × ((tick_entry io o now later e).0.unhealthy_fired ≡ true)
  unfolding tick_entry account ping miss
  tick_entry_alarm now later e h = ground arith

  -- A round leaves a spent alarm spent.
  tick_entry_spent :
      (now later : ℕ) (e : PeerEntry Channel)
      → e.unhealthy_fired ≡ true
      → ((tick_entry io o now later e).0.unhealthy_fired ≡ true)
        × ((tick_entry io o now later e).2 ≡ false)
  unfolding tick_entry account ping miss
  tick_entry_spent now later e h = ground arith

  -- The rounds of one peer that hears nothing: the entry, and how often its alarm went off. Each
  -- round has its two times.
  unfoldable pub rounds : List (ℕ × ℕ) → PeerEntry Channel → PeerEntry Channel × ℕ
  rounds [] e = (e, 0)
  rounds ((now, later) ∷ ts) e =
      let (e', _, alarm) = tick_entry io o now later e in
      let (e'', count) = rounds ts e' in (e'', if alarm then suc count else count)

  rounds_spent :
      (ts : List (ℕ × ℕ)) (e : PeerEntry Channel) → e.unhealthy_fired ≡ true → (rounds ts e).1 ≡ 0
  unfolding rounds
  rounds_spent [] e h = refl
  rounds_spent ((now, later) ∷ ts) e h =
      let (spent, quiet) = tick_entry_spent now later e h in
      rw quiet (rounds_spent ts (tick_entry io o now later e).0 spent)

  -- However long a peer stays silent, its alarm goes off at most once.
  pub rounds-le_one : (ts : List (ℕ × ℕ)) (e : PeerEntry Channel) → (rounds ts e).1 ≤ 1
  unfolding rounds
  rounds-le_one [] e = omega arith
  rounds-le_one ((now, later) ∷ ts) e = elim (Bool-cases (tick_entry io o now later e).2) [
    | inl on ↦ rw on (
        omega (
          arith,
          rounds_spent ts (tick_entry io o now later e).0 (tick_entry_alarm now later e on).3,
        ))
    | inr off ↦ rw off (rounds-le_one ts (tick_entry io o now later e).0)
  ]

  tick_entry_unwritable :
      (now later : ℕ) (e : PeerEntry Channel)
      → ((id t : ℕ) → io.write e.sender id t ≡ false)
      → e.pending ≡ []
      → let r = tick_entry io o now later e in
        (r.2 ≡ false)
        × (r.0.state.consecutive_misses ≡ suc e.state.consecutive_misses)
        × (r.0.sender ≡ e.sender)
        × (r.0.pending ≡ [])
        × (r.0.unhealthy_fired ≡ e.unhealthy_fired)
        × (r.0.state.status ≡ classify o (suc e.state.consecutive_misses))
  unfolding tick_entry account ping miss
  tick_entry_unwritable now later e w h =
      let refused = w e.next_ping_id later in
      (ground arith, ground arith, ground arith, ground arith, ground arith, ground arith)

  -- Rounds without an answer keep the status that goes with the misses.
  rounds-classify :
      (ts : List (ℕ × ℕ)) (e : PeerEntry Channel)
      → ((id t : ℕ) → io.write e.sender id t ≡ false)
      → e.pending ≡ []
      → e.state.status ≡ classify o e.state.consecutive_misses
      → (rounds ts e).0.state.status ≡ classify o (e.state.consecutive_misses + length ts)
  unfolding rounds
  rounds-classify [] e w h c = c ∙ ap (classify o) (omega arith)
  rounds-classify ((now, later) ∷ ts) e w h c =
      let (_, missed, same, empty, _, status) = tick_entry_unwritable now later e w h in
      rounds-classify ts (tick_entry io o now later e).0 (λ id t. rw same (w id t)) empty
        (status ∙ ap (classify o) (sym missed))
      ∙ ap (classify o) (omega (arith, missed))

  silent :
      (ts : List (ℕ × ℕ)) (e : PeerEntry Channel)
      → ((id t : ℕ) → io.write e.sender id t ≡ false)
      → e.pending ≡ []
      → ((rounds ts e).1 ≡ 0)
        × ((rounds ts e).0.state.consecutive_misses ≡ e.state.consecutive_misses + length ts)
        × ((rounds ts e).0.unhealthy_fired ≡ e.unhealthy_fired)
  unfolding rounds
  silent [] e w h = (refl, omega arith, refl)
  silent ((now, later) ∷ ts) e w h =
      let (quiet, missed, same, empty, fired, _) = tick_entry_unwritable now later e w h in
      let (none_later, misses, kept) =
        silent ts (tick_entry io o now later e).0 (λ id t. rw same (w id t)) empty in
      rw quiet (none_later, omega (arith, misses, missed), kept ∙ fired)

  classify_iff :
      (n : ℕ) (s : Status)
      → s ≡ classify o n
      → ((s ≡ dead) ↔ (o.dead_after_misses ≤ n))
        × ((s ≡ unhealthy) ↔ ((o.unhealthy_after_misses ≤ n) × (n < o.dead_after_misses)))
  unfolding classify
  classify_iff n s e = (ground arith, ground arith)

  rounds-status :
      (now later : ℕ) (ts : List (ℕ × ℕ)) (e : PeerEntry Channel)
      → ((id t : ℕ) → io.write e.sender id t ≡ false)
      → e.pending ≡ []
      → (rounds ((now, later) ∷ ts) e).0.state.status
        ≡ classify o (e.state.consecutive_misses + suc (length ts))
  unfolding rounds
  rounds-status now later ts e w h =
      let (_, missed, same, empty, _, status) = tick_entry_unwritable now later e w h in
      rounds-classify ts (tick_entry io o now later e).0 (λ id t. rw same (w id t)) empty
        (status ∙ ap (classify o) (sym missed))
      ∙ ap (classify o) (omega (arith, missed))

  -- A peer whose channel takes no ping, and that has none unanswered, never sets off its alarm, and
  -- each round counts a miss all the same: after one round or more it is dead exactly where its
  -- misses have reached the number for that, and unhealthy exactly where they have reached the
  -- number for that and not the other.
  pub rounds_unwritable :
      (ts : List (ℕ × ℕ)) (e : PeerEntry Channel)
      → ((id t : ℕ) → io.write e.sender id t ≡ false)
      → e.pending ≡ []
      → ts ≢ []
      → let r = rounds ts e in
        let misses = e.state.consecutive_misses + length ts in
        (r.1 ≡ 0)
        × (r.0.state.consecutive_misses ≡ misses)
        × (r.0.unhealthy_fired ≡ e.unhealthy_fired)
        × ((r.0.state.status ≡ dead) ↔ (o.dead_after_misses ≤ misses))
        × ((r.0.state.status ≡ unhealthy)
            ↔ ((o.unhealthy_after_misses ≤ misses) × (misses < o.dead_after_misses)))
  rounds_unwritable [] e w h n = absurd (n refl)
  rounds_unwritable ((now, later) ∷ ts) e w h n =
      let (quiet, counted, fired) = silent ((now, later) ∷ ts) e w h in
      let declared =
        classify_iff (e.state.consecutive_misses + suc (length ts)) _
          (rounds-status now later ts e w h) in
      (quiet, counted, fired, declared.0, declared.1)
