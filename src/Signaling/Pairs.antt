-- ===== src/Signaling/Pairs.antt =====
-- Sockets that are a list of the pairs of a socket and a room it is in: what socket.io documents
-- holds of them. A socket that is connected is in the room of its own name.
use ccn.Prelude.{
  string_key, ◌≡◌, ◌≢◌, ◌⊎◌, ◌↔◌, refl, Bool, true, false, ◌&&◌, String, List, [], ◌∷◌,
  if◌then◌else◌, ◌==◌, In, arith,
}
use text.Mathlib.TextEquality.{eq_iff}
use ccn.Signaling.{Sockets, IsSocketIo}

abbrev pub Pairs : Type 0
Pairs = List (String × String)

abbrev pub has : String → String → Pairs → Bool
has id room [] = false
has id room ((i, r) ∷ s) = if (i == id) && (r == room) then true else has id room s

abbrev pub members_in : String → Pairs → List String
members_in room [] = []
members_in room ((i, r) ∷ s) = if r == room then i ∷ members_in room s else members_in room s

abbrev pub rooms_in : String → Pairs → List String
rooms_in id [] = []
rooms_in id ((i, r) ∷ s) = if i == id then r ∷ rooms_in id s else rooms_in id s

abbrev pub add : String → String → Pairs → Pairs
add id room [] = (id, room) ∷ []
add id room ((i, r) ∷ s) = if (i == id) && (r == room) then (i, r) ∷ s else (i, r) ∷ add id room s

abbrev pub remove : String → String → Pairs → Pairs
remove id room [] = []
remove id room ((i, r) ∷ s) =
    if (i == id) && (r == room) then remove id room s else (i, r) ∷ remove id room s

abbrev pub remove_all : String → Pairs → Pairs
remove_all id [] = []
remove_all id ((i, r) ∷ s) = if i == id then remove_all id s else (i, r) ∷ remove_all id s

-- The rooms of all, without a room that stands again further on.
abbrev pub names : Pairs → List String
names [] = []
names ((i, r) ∷ s) = elim (members_in r s) [ [] ↦ r ∷ names s | _ ∷ _ ↦ names s ]

abbrev pub pairs : Sockets Pairs
pairs = record {
  join = add;
  leave = remove;
  drop = remove_all;
  members = members_in;
  rooms_of = rooms_in;
  rooms = names;
  is_joined = has;
  is_connected = λ id. has id id;
  username = λ id s. id;
}

pub pairs-IsSocketIo : IsSocketIo pairs
pairs-IsSocketIo = record {
  joined_iff = joined;
  rooms_iff = rooms;
  join_iff = join;
  join_other = join_ne;
  leave_iff = leave;
  leave_other = leave_ne;
  drop_iff = drop;
}
  where
    joined : (id room : String) (s : Pairs) → (has id room s ≡ true) ↔ In id (members_in room s)
    joined id room [] = (λ e. absurd (cc), λ e. absurd e)
    joined id room ((i, r) ∷ s) = ground (arith, eq_iff i id, eq_iff r room, joined id room s)

    rooms : (id room : String) (s : Pairs) → In room (rooms_in id s) ↔ In id (members_in room s)
    rooms id room [] = (λ e. e, λ e. e)
    rooms id room ((i, r) ∷ s) = ground (arith, eq_iff i id, eq_iff r room, rooms id room s)

    join :
        (id room x : String) (s : Pairs)
        → In x (members_in room (add id room s)) ↔ ((x ≡ id) ⊎ In x (members_in room s))
    join id room x [] = ground (arith, eq_iff room room)
    join id room x ((i, r) ∷ s) = ground (arith, eq_iff i id, eq_iff r room, join id room x s)

    join_ne :
        (id room other : String) (s : Pairs)
        → room ≢ other
        → members_in other (add id room s) ≡ members_in other s
    join_ne id room other [] h = ground (arith, eq_iff room other)
    join_ne id room other ((i, r) ∷ s) h =
        ground (arith, eq_iff i id, eq_iff r room, eq_iff r other, join_ne id room other s h)

    leave :
        (id room x : String) (s : Pairs)
        → In x (members_in room (remove id room s)) ↔ (In x (members_in room s) × (x ≢ id))
    leave id room x [] = (λ e. absurd e, λ e. e.0)
    leave id room x ((i, r) ∷ s) = ground (arith, eq_iff i id, eq_iff r room, leave id room x s)

    leave_ne :
        (id room other : String) (s : Pairs)
        → room ≢ other
        → members_in other (remove id room s) ≡ members_in other s
    leave_ne id room other [] h = refl
    leave_ne id room other ((i, r) ∷ s) h =
        ground (arith, eq_iff i id, eq_iff r room, eq_iff r other, leave_ne id room other s h)

    drop :
        (id room x : String) (s : Pairs)
        → In x (members_in room (remove_all id s)) ↔ (In x (members_in room s) × (x ≢ id))
    drop id room x [] = (λ e. absurd e, λ e. e.0)
    drop id room x ((i, r) ∷ s) = ground (arith, eq_iff i id, eq_iff r room, drop id room x s)
