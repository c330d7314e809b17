-- ===== src/Auth/Retention.antt =====
-- A redeemed token stays redeemed as long as it could be replayed.
use ccn.Prelude.{
  string_key, ℕ, ◌+◌, ◌-◌, ◌≤◌, ◌≡◌, ◌∙◌, inl, inr, true, false, some, String, List, [], ◌∷◌,
  if◌then◌else◌, if_cases, ltb, leb, JsMap, map_get, map_set, map_has, map_delete, length, All,
  All-mono, IsDistinct, map_set-IsDistinct, map_delete-IsDistinct, map_get-set_self, map_get-set_ne,
  map_get-delete_ne, map_get-has, Bool-cases, ◌==◌, arith,
}
use text.Mathlib.TextEquality.{eq_iff}
use mathlib.Core.Option.{some-injective}
use ccn.Auth.{Redeemed, redeem_retention_ms, sweep, mark_jti_redeemed, is_jti_redeemed}

absent : (j : String) (m : Redeemed) → map_has j m ≡ false → All (λ e. e.0 ≡ j → ⊥) m
unfolding map_has
absent j [] h = tt
absent j ((b, v) ∷ m) h = elim (Bool-cases (b == j)) [
  | inl e ↦ absurd (ground (arith, eq_iff b j))
  | inr e ↦ (λ q. ground (arith, eq_iff b j), absent j m (ground arith))
]

only_value :
    (j : String) (t : ℕ) (m : Redeemed)
    → IsDistinct m
    → map_get j m ≡ some t
    → All (λ e. e.0 ≡ j → e.1 ≡ t) m
unfolding map_get
only_value j t [] d e = tt
only_value j t ((b, v) ∷ m) (n, d) e = elim (Bool-cases (b == j)) [
  | inl q ↦
      let same : b ≡ j = ground (arith, eq_iff b j) in
      (
        λ r. some-injective _ _ (rw q at e),
        All-mono m (λ x f r. absurd (f r)) (absent j m (rw same at n)),
      )
  | inr q ↦ (λ r. ground (arith, eq_iff b j), only_value j t m d (rw q at e))
]

-- The entry of `j` is there, and not older than `since`.
abbrev pub IsHeld : String → ℕ → Redeemed → Type 0
IsHeld j since m = IsDistinct m × (t : ℕ) × (map_get j m ≡ some t) × (since ≤ t)

sweep-IsHeld :
    (j : String) (since t cutoff : ℕ) (es : JsMap String ℕ) (m : Redeemed)
    → cutoff ≤ since
    → since ≤ t
    → All (λ e. e.0 ≡ j → e.1 ≡ t) es
    → IsDistinct m
    → map_get j m ≡ some t
    → IsHeld j since (sweep cutoff es m)
unfolding sweep
sweep-IsHeld j since t cutoff [] m c s a d e = (d, t, e, s)
sweep-IsHeld j since t cutoff ((k, v) ∷ es) m c s (p, a) d e =
    let (d', e') = kept in
    if_cases (IsHeld j since) (leb (length left) 512) _ _ (λ q. (d', t, e', s))
      (λ q. sweep-IsHeld j since t cutoff es left c s a d' e')
  where
    left : Redeemed
    left = if ltb v cutoff then map_delete k m else m

    kept : IsDistinct left × (map_get j left ≡ some t)
    kept =
        if_cases (λ (x : Redeemed). IsDistinct x × (map_get j x ≡ some t)) (ltb v cutoff) _ _
          (λ q. (
            map_delete-IsDistinct k m d,
            map_get-delete_ne k j m (λ r. absurd (let u = p r in ground arith)) ∙ e,
          ))
          (λ q. (d, e))

-- A sweep that is not too late spares an entry that is young enough.
swept-IsHeld :
    (j : String) (since u later : ℕ) (m : Redeemed)
    → since ≤ u
    → later ≤ since + redeem_retention_ms
    → IsDistinct m
    → map_get j m ≡ some u
    → IsHeld j since (if ltb 1024 (length m) then sweep (later - redeem_retention_ms) m m else m)
swept-IsHeld j since u later m g b d f =
    if_cases (IsHeld j since) (ltb 1024 (length m)) _ _
      (λ q.
        sweep-IsHeld j since u (later - redeem_retention_ms) m m (omega arith) g
          (only_value j u m d f) d f)
      (λ q. (d, u, f, g))

mark_jti_redeemed-IsHeld :
    (j : String) (since : ℕ) (jti : String) (now later : ℕ) (m : Redeemed)
    → since ≤ now
    → later ≤ since + redeem_retention_ms
    → IsHeld j since m
    → IsHeld j since (mark_jti_redeemed jti now later m)
unfolding mark_jti_redeemed
mark_jti_redeemed-IsHeld j since jti now later m a b (d, t, e, s) =
    let d' = map_set-IsDistinct jti now m d in
    elim (Bool-cases (jti == j)) [
      | inl q ↦
          let same : jti ≡ j = ground (arith, eq_iff jti j) in
          swept-IsHeld j since now later (map_set jti now m) a b d'
            (rw same (map_get-set_self j now m))
      | inr q ↦
          swept-IsHeld j since t later (map_set jti now m) s b d'
            (map_get-set_ne jti j now m (λ r. ground (arith, eq_iff jti j)) ∙ e)
    ]

first-IsHeld :
    (j : String) (now later : ℕ) (m : Redeemed)
    → IsDistinct m
    → later ≤ now + redeem_retention_ms
    → IsHeld j now (mark_jti_redeemed j now later m)
unfolding mark_jti_redeemed
first-IsHeld j now later m d b =
    swept-IsHeld j now now later (map_set j now m) (omega arith) b (map_set-IsDistinct j now m d)
      (map_get-set_self j now m)

-- A call of `markJtiRedeemed`.
pub record Mark : Type 0 where
  pub jti : String
  pub now : ℕ
  pub later : ℕ

-- Calls, the last one first.
unfoldable pub marks : List Mark → Redeemed → Redeemed
unfolding mark_jti_redeemed
marks [] m = m
marks (c ∷ cs) m = mark_jti_redeemed c.jti c.now c.later (marks cs m)

-- A token that was redeemed counts as redeemed after any further redemptions, of whatever tokens
-- and however often the map is swept, as long as the clock does not go back and each sweep is at
-- most twenty minutes after the redemption, twice the life of a token.
pub marks-is_jti_redeemed :
    (j : String) (now later : ℕ) (cs : List Mark) (m : Redeemed)
    → IsDistinct m
    → later ≤ now + redeem_retention_ms
    → All (λ c. (now ≤ c.now) × (c.later ≤ now + redeem_retention_ms)) cs
    → is_jti_redeemed j (marks cs (mark_jti_redeemed j now later m)) ≡ true
unfolding marks
marks-is_jti_redeemed j now later cs m d b h =
    let (d', t, e, s) = held cs h in map_get-has j (marks cs (mark_jti_redeemed j now later m)) e
  where
    held :
        (cs : List Mark)
        → All (λ c. (now ≤ c.now) × (c.later ≤ now + redeem_retention_ms)) cs
        → IsHeld j now (marks cs (mark_jti_redeemed j now later m))
    held [] h = first-IsHeld j now later m d b
    held (c ∷ cs) ((p, q), h) = mark_jti_redeemed-IsHeld j now c.jti c.now c.later _ p q (held cs h)
