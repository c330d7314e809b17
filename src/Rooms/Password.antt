-- ===== src/Rooms/Password.antt =====
-- The password of a room: what is stored, and who is let in.
use ccn.Prelude.{
  string_key, ℕ, zero, suc, map_has-get_some, ◌≡◌, ◌≢◌, ◌⊎◌, ◌↔◌, refl, sym, inl, inr, true, false,
  Option, none, some, String, map_get, map_has, eqb, arith, ◌==◌, Bool-cases, Option-cases,
  map_get-set_self, map_get-set_ne, map_get-delete_self, map_get-delete_ne, IsDistinct, map_get-has,
}
use mathlib.Core.Option.{some-injective}
use text.Mathlib.TextEquality.{eq_iff}
use ccn.Rooms.Trim.{trim}
use ccn.Rooms.{
  RoomManager, set_room_password, check_room_password, has_room_password, gc_room_password,
  is_string,
}

is_string_iff : (o : Option String) (s : String) → (is_string o s ≡ true) ↔ (o ≡ some s)
is_string_iff none s = (λ e. absurd (cc), λ e. absurd (cc))
is_string_iff (some t) s = ground (arith, eq_iff t s)

-- A room is open to exactly those who give the stored password, and to everybody where none is
-- stored.
pub check_room_password_iff :
    (room : String) (password : Option String) (m : RoomManager)
    → (check_room_password room password m ≡ true)
      ↔ ((has_room_password room m ≡ false) ⊎ (map_get room m.room_passwords ≡ password))
unfolding check_room_password has_room_password
check_room_password_iff room password m = elim (Option-cases (map_get room m.room_passwords)) [
  | inl e ↦
      rw (e, check_room_password, has_room_password)
        (
          λ h. inl (elim (Bool-cases (map_has room m.room_passwords)) [
            | inl t ↦ absurd (let (v, k) = map_has-get_some room m.room_passwords t in cc)
            | inr f ↦ f
          ]),
          λ h. refl,
        )
  | inr (stored, e) ↦
      let there = map_get-has room m.room_passwords e in
      rw (e, there, check_room_password, has_room_password)
        (ground (arith, is_string_iff password stored))
]

-- The same by the stored passwords alone.
pub check_room_password_open :
    (room : String) (password : Option String) (m : RoomManager)
    → (check_room_password room password m ≡ true)
      ↔ ((map_get room m.room_passwords ≡ none) ⊎ (map_get room m.room_passwords ≡ password))
unfolding check_room_password
check_room_password_open room password m = elim (Option-cases (map_get room m.room_passwords)) [
  | inl e ↦ rw (e, check_room_password) (λ h. inl refl, λ h. refl)
  | inr (stored, e) ↦ rw (e, check_room_password) (ground (arith, is_string_iff password stored))
]

pub check_room_password-wrong :
    (room : String) (password : Option String) (m : RoomManager) {stored : String}
    → map_get room m.room_passwords ≡ some stored
    → password ≢ some stored
    → check_room_password room password m ≡ false
unfolding check_room_password
check_room_password-wrong room password m {stored} e n =
    rw (e, check_room_password) (ground (arith, is_string_iff password stored))

-- After a password that is not blank was set, exactly the trimmed password opens the room; another
-- room's password is left as it was.
pub check_room_password-set :
    (room : String) (password : String) (given : Option String) (m : RoomManager)
    → trim password ≢ ""
    → ((check_room_password room given (set_room_password room password m) ≡ true)
        ↔ (given ≡ some (trim password)))
      × ((other : String)
          → room ≢ other
          → check_room_password other given (set_room_password room password m)
            ≡ check_room_password other given m)
unfolding check_room_password set_room_password
check_room_password-set room password given m h =
    let filled : (trim password == "") ≡ false = ground (arith, eq_iff (trim password) "") in
    rw filled (
      rw (map_get-set_self room (trim password) m.room_passwords, check_room_password)
          (is_string_iff given (trim password)),
      λ other k.
          rw (map_get-set_ne room other (trim password) m.room_passwords k, check_room_password)
            refl,
    )

-- Where a password has white space at an end and is not all white space, a room that it was set for
-- refuses that very password.
pub check_room_password_untrimmed :
    (room : String) (password : String) (m : RoomManager)
    → trim password ≢ ""
    → trim password ≢ password
    → check_room_password room (some password) (set_room_password room password m) ≡ false
check_room_password_untrimmed room password m h k =
    elim (Bool-cases
      (check_room_password room (some password) (set_room_password room password m))) [
        | inl e ↦ absurd (
            k (
              sym (
                some-injective _ _
                  ((check_room_password-set room password (some password) m h).0.0 e))))
        | inr e ↦ e
      ]

-- The password of an empty room is forgotten, and that of any other room, or of a room that is not
-- empty, is kept.
pub gc_room_password_lem :
    (size : ℕ) (room : String) (m : RoomManager)
    → IsDistinct m.room_passwords
    → (size ≡ 0
        → (given : Option String)
        → check_room_password room given (gc_room_password size room m) ≡ true)
      × (size ≢ 0 → gc_room_password size room m ≡ m)
      × ((other : String)
          → room ≢ other
          → map_get other (gc_room_password size room m).room_passwords
            ≡ map_get other m.room_passwords)
unfolding check_room_password gc_room_password
gc_room_password_lem zero room m d = (
  λ e given. rw (map_get-delete_self room m.room_passwords d, check_room_password) refl,
  λ n. absurd (n refl),
  λ other k. map_get-delete_ne room other m.room_passwords k,
)
gc_room_password_lem (suc size) room m d =
    let kept : eqb (suc size) 0 ≡ false = ground arith in
    (λ e. absurd (omega arith), λ n. rw kept refl, λ other k. rw kept refl)

-- Nothing but the stored password decides who is let in.
pub check_room_password-same :
    (room : String) (given : Option String) (m n : RoomManager)
    → m.room_passwords ≡ n.room_passwords
    → check_room_password room given m ≡ check_room_password room given n
unfolding check_room_password
check_room_password-same room given m n e = rw e refl
