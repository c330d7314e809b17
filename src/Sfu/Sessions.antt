-- ===== src/Sfu/Sessions.antt =====
-- A socket has one session at most, and a session that ends closes all that it had.
use ccn.Prelude.{
  string_key, ◌≡◌, ◌≢◌, ◌↔◌, refl, ap, ◌∙◌, sym, inl, inr, true, Option, none, some, String, [],
  ◌∷◌, ◌++◌, if_cases, ◌==◌, JsMap, map_get, map_delete, map_get-set_self, map_get-delete_self,
  map_get-delete_ne, IsDistinct, Bool-cases, arith,
}
use text.Mathlib.TextEquality.{eq_iff}
use mathlib.Core.Option.{some-injective}
use ccn.Sfu.{
  SfuSession, SfuState, new_session, resources_of, close_session, ensure_found, ensure_session,
  sessions_from, any_in,
}

-- What `ensureSession` promises of its result, in the state `s`.
abbrev pub Ensures : String → String → SfuState → SfuState × SfuSession → Type 0
Ensures id room_id s (t, session) =
    (map_get id t.sessions ≡ some session)
    × (session.room_id ≡ room_id)
    × ((old : SfuSession)
        → map_get id s.sessions ≡ some old
        → old.room_id ≡ room_id
        → (session ≡ old) × (t ≡ s))
    × ((old : SfuSession)
        → map_get id s.sessions ≡ some old
        → old.room_id ≢ room_id
        → (session ≡ new_session room_id) × (t.closed ≡ s.closed ++ resources_of old))

ensure_found-Ensures :
    (id room_id : String) (s : SfuState) (o : Option SfuSession)
    → map_get id s.sessions ≡ o
    → Ensures id room_id s (ensure_found id room_id o s)
ensure_found-Ensures id room_id s none e = (
  map_get-set_self id (new_session room_id) s.sessions,
  refl,
  λ old q r. absurd (cc),
  λ old q n. absurd (cc),
)
ensure_found-Ensures id room_id s (some found) e =
    if_cases (Ensures id room_id s) (found.room_id == room_id) _ _
      (λ t.
        let same = (eq_iff found.room_id room_id).0 t in
        (
          e,
          same,
          λ old q r. (some-injective found old (sym e ∙ q), refl),
          λ old q n.
              absurd (n (ap (λ x. x.room_id) (sym (some-injective found old (sym e ∙ q))) ∙ same)),
        ))
      (λ t. (
        map_get-set_self id (new_session room_id) (map_delete id s.sessions),
        refl,
        λ old q r. absurd (
            let u : found.room_id ≡ room_id =
              ap (λ x. x.room_id) (some-injective found old (sym e ∙ q)) ∙ r in
            ground (arith, eq_iff found.room_id room_id)),
        λ old q n.
            (refl, ap (λ x. s.closed ++ resources_of x) (some-injective found old (sym e ∙ q))),
      ))

-- After `ensureSession` the socket has the session that it returned, which is of that room. A
-- session that it had for the room is kept, and nothing is closed; one that it had for another
-- room has all its transports, producers and consumers closed, and the new one starts empty.
pub ensure_session_lem :
    (id room_id : String) (s : SfuState) → Ensures id room_id s (ensure_session id room_id s)
unfolding ensure_session
ensure_session_lem id room_id s = ensure_found-Ensures id room_id s (map_get id s.sessions) refl

-- After `closeSession` the socket has no session, all that its session had is closed, in the order
-- consumers, producers, transports, and no other socket's session is touched.
pub close_session_lem :
    (id : String) (s : SfuState) (old : SfuSession)
    → IsDistinct s.sessions
    → map_get id s.sessions ≡ some old
    → (map_get id (close_session id s).sessions ≡ none)
      × ((close_session id s).closed ≡ s.closed ++ resources_of old)
      × ((other : String)
          → id ≢ other
          → map_get other (close_session id s).sessions ≡ map_get other s.sessions)
unfolding close_session
close_session_lem id s old d e =
    rw e (
      map_get-delete_self id s.sessions d,
      refl,
      λ other h. map_get-delete_ne id other s.sessions h,
    )

-- `roomHasSessions` holds exactly where `sessionsInRoom` finds one.
pub any_in_iff :
    (room_id : String) (m : JsMap String SfuSession)
    → (any_in room_id m ≡ true) ↔ (sessions_from room_id m ≢ [])
unfolding any_in sessions_from
any_in_iff room_id [] = (λ e. absurd (cc), λ n. absurd (n refl))
any_in_iff room_id ((id, session) ∷ m) = elim (Bool-cases (session.room_id == room_id)) [
  | inl e ↦ rw e (λ q r. absurd (cc), λ n. refl)
  | inr e ↦ rw e (any_in_iff room_id m)
]
