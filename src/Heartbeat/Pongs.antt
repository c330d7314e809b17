-- ===== src/Heartbeat/Pongs.antt =====
-- A pong is counted once, and only if its ping is still waited for.
use ccn.Prelude.{
  nat_key, string_key, ℕ, ◌-◌, ◌≡◌, ◌≢◌, refl, true, false, none, some, String, map_get, map_set,
  map_delete, arith, inl, inr, Option-cases, IsDistinct, map_get-set_self, map_get-set_ne,
  map_get-delete_self, sym, ◌∙◌,
}
use mathlib.Core.Option.{some-injective}
use ccn.Heartbeat.{
  healthy, PendingPing, PeerEntry, Tracker, hb_pong, publish, answer, pong_at, handle_pong,
}

module _ {Channel : Type 0} where
  publish-peers : (t : Tracker Channel) → (publish t).peers ≡ t.peers
  unfolding publish
  publish-peers t = ground arith

  -- A pong of a ping that is waited for makes the peer healthy with no miss and its alarm ready
  -- again, and records the time since the ping; no other peer's entry changes.
  pub handle_pong_answered :
      (now : ℕ) (id : String) (pong time : ℕ) (t : Tracker Channel) (e : PeerEntry Channel)
      (p : PendingPing)
      → map_get id t.peers ≡ some e
      → map_get pong e.pending ≡ some p
      → let r = handle_pong now id (hb_pong pong time) t in
        (r.1 ≡ true)
        × ((e' : PeerEntry Channel) × (map_get id r.0.peers ≡ some e')
            × (e'.state ≡ record {
              rtt_ms = some (now - p.sent_at);
              last_pong_at = some now;
              consecutive_misses = 0;
              status = healthy;
            })
            × (e'.unhealthy_fired ≡ false)
            × (e'.pending ≡ map_delete pong e.pending))
        × ((other : String) → id ≢ other → map_get other r.0.peers ≡ map_get other t.peers)
  unfolding handle_pong pong_at
  handle_pong_answered now id pong time t e p he hp =
      rw (he, pong_at)
        (rw (hp, pong_at)
          (
            refl,
            (
              answer now pong p e,
              found,
              unfold answer in refl,
              unfold answer in refl,
              unfold answer in refl,
            ),
            others,
          ))
    where
      t' : Tracker Channel
      t' = record t { peers = map_set id (answer now pong p e) t.peers }

      found : map_get id (publish t').peers ≡ some (answer now pong p e)
      found = rw (publish-peers t') (map_get-set_self id (answer now pong p e) t.peers)

      others :
          (other : String) → id ≢ other → map_get other (publish t').peers ≡ map_get other t.peers
      others other h =
          rw (publish-peers t') (map_get-set_ne id other (answer now pong p e) t.peers h)

  -- A pong that answers no ping that is waited for changes nothing.
  pub handle_pong_unknown :
      (now : ℕ) (id : String) (pong time : ℕ) (t : Tracker Channel)
      → ((e : PeerEntry Channel) → map_get id t.peers ≡ some e → map_get pong e.pending ≡ none)
      → handle_pong now id (hb_pong pong time) t ≡ (t, false)
  unfolding handle_pong pong_at
  handle_pong_unknown now id pong time t h = elim (Option-cases (map_get id t.peers)) [
    | inl e ↦ rw (e, pong_at)
    | inr (d, e) ↦ rw (e, pong_at) (rw (h d e, pong_at))
  ]

  -- The same pong a second time changes nothing, and is refused.
  pub handle_pong_twice :
      (now later : ℕ) (id : String) (pong time : ℕ) (t : Tracker Channel) (e : PeerEntry Channel)
      (p : PendingPing)
      → map_get id t.peers ≡ some e
      → map_get pong e.pending ≡ some p
      → IsDistinct e.pending
      → let t' = (handle_pong now id (hb_pong pong time) t).0 in
        handle_pong later id (hb_pong pong time) t' ≡ (t', false)
  handle_pong_twice now later id pong time t e p he hp d =
      let (_, (e', found, _, _, rest), _) = handle_pong_answered now id pong time t e p he hp in
      handle_pong_unknown later id pong time _ (λ c hc. gone c e' found rest hc)
    where
      gone :
          (c e' : PeerEntry Channel)
          → map_get id (handle_pong now id (hb_pong pong time) t).0.peers ≡ some e'
          → e'.pending ≡ map_delete pong e.pending
          → map_get id (handle_pong now id (hb_pong pong time) t).0.peers ≡ some c
          → map_get pong c.pending ≡ none
      gone c e' found rest hc =
          let same : c ≡ e' = some-injective _ _ (sym hc ∙ found) in
          rw (same, rest) (map_get-delete_self pong e.pending d)
