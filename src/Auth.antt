-- ===== src/Auth.antt =====
-- backend/src/auth/jwt.ts: the tokens of magic links that were redeemed.
pub mod Retention
mod Tests
use ccn.Prelude.{
  string_key, ℕ, ◌-◌, ◌*◌, Bool, true, false, String, List, [], ◌∷◌, if◌then◌else◌, ltb, leb, JsMap,
  map_set, map_has, map_delete, length,
}

abbrev pub magic_ttl_seconds : ℕ
magic_ttl_seconds = 600

abbrev pub redeem_retention_ms : ℕ
redeem_retention_ms = magic_ttl_seconds * 1000 * 2

abbrev pub Redeemed : Type 0
Redeemed = JsMap String ℕ

-- The loop of the sweep over the entries, which ends as soon as few enough are left.
unfoldable pub sweep : ℕ → JsMap String ℕ → Redeemed → Redeemed
sweep cutoff [] m = m
sweep cutoff ((k, t) ∷ es) m =
    let m' = if ltb t cutoff then map_delete k m else m in
    if leb (length m') 512 then m' else sweep cutoff es m'

-- The clock is read at `now` for the entry and at `later` for the sweep.
unfoldable pub mark_jti_redeemed : String → ℕ → ℕ → Redeemed → Redeemed
unfolding sweep
mark_jti_redeemed jti now later m =
    let m' = map_set jti now m in
    if ltb 1024 (length m') then sweep (later - redeem_retention_ms) m' m' else m'

abbrev pub is_jti_redeemed : String → Redeemed → Bool
is_jti_redeemed jti m = map_has jti m
