-- ===== src/Dht/Lookup/Origin.antt =====
-- Where the value of a lookup comes from.
use ccn.Prelude.{
  string_key, ℕ, zero, suc, ◌≡◌, ◌≢◌, refl, subst, ◌∙◌, Bool, ◌||◌, false, Option, none, some,
  String, List, [], ◌∷◌, if◌then◌else◌, if_cases,
}
use ccn.Dht.NodeId.{NodeId}
use ccn.Dht.Table.{Contact, RoutingTable}
use ccn.Dht.Lookup.{
  Reply, Mode, find_node, find_value, Candidate, Lookup, Found, value_of, learn, absorb, take_in,
  answers, conclude, round_on, rounds, start, iterative_find,
}

module _ (ask : Contact → Option Reply) (self : String) (alpha now : ℕ) (target : NodeId) where
  -- Some contact answers with the bytes.
  abbrev pub IsHeld : Mode → List ℕ → Type 0
  IsHeld mode bytes =
      (c : Contact) × (r : Reply) × (ask c ≡ some r) × (value_of mode r ≡ some bytes)

  abbrev pub Holds : Mode → Option Found → Type 0
  Holds mode none = Unit {0}
  Holds mode (some f) = (bytes : List ℕ) → f.value ≡ some bytes → IsHeld mode bytes

  abbrev HoldsFirst : Mode → Option (Found × Bool) → Type 0
  HoldsFirst mode none = Unit {0}
  HoldsFirst mode (some (f, learned)) = Holds mode (some f)

  absorb-Holds :
      (mode : Mode) (c : Contact) (r : Reply) (v : Option (List ℕ))
      (learnt : Option (Lookup × Bool)) (learned : Bool) (l : Lookup)
      (next : Bool → Lookup → Option (Found × Bool))
      → ask c ≡ some r
      → value_of mode r ≡ v
      → ((b : Bool) (k : Lookup) → HoldsFirst mode (next b k))
      → HoldsFirst mode (absorb self now v learnt learned l next)
  absorb-Holds mode c r (some v) learnt learned l next a e h = λ bytes q. (c, r, a, e ∙ q)
  absorb-Holds mode c r none none learned l next a e h = tt
  absorb-Holds mode c r none (some (k, more)) learned l next a e h = h (learned || more) k

  reply-Holds :
      (mode : Mode) (c : Contact) (o : Option Reply) (rs : List (Option Reply)) (learned : Bool)
      (l : Lookup)
      → ask c ≡ o
      → ((b : Bool) (k : Lookup) → HoldsFirst mode (take_in self now mode rs b k))
      → HoldsFirst mode (take_in self now mode (o ∷ rs) learned l)
  unfolding take_in
  reply-Holds mode c none rs learned l e h = h learned l
  reply-Holds mode c (some r) rs learned l e h =
      absorb-Holds mode c r (value_of mode r) (learn self now r.contacts l) learned l
        (take_in self now mode rs) e refl h

  take_in-Holds :
      (mode : Mode) (cs : List Candidate) (learned : Bool) (l : Lookup)
      → HoldsFirst mode (take_in self now mode (answers ask self alpha now target cs) learned l)
  unfolding take_in
  take_in-Holds mode [] learned l = λ bytes e. absurd (cc)
  take_in-Holds mode (c ∷ cs) learned l =
      reply-Holds mode c.contact (ask c.contact) _ learned l refl (take_in-Holds mode cs)

  conclude-Holds :
      (mode : Mode) (o : Option (Found × Bool)) (next : Lookup → Option Found)
      → HoldsFirst mode o
      → ((l : Lookup) → Holds mode (next l))
      → Holds mode (conclude ask self alpha now target o next)
  conclude-Holds mode none next h k = tt
  conclude-Holds mode (some (f, learned)) next h k =
      elim f.value
        as (λ v.
          Holds mode
            (elim v [ some bytes ↦ some f | none ↦ if learned then next f.lookup else some f ])) [
              | some bytes ↦ h
              | none ↦ if_cases (Holds mode) learned _ _ (λ e. k f.lookup) (λ e. h)
            ]

  round_on-Holds :
      (mode : Mode) (l : Lookup) (next : Lookup → Option Found) (cs : List Candidate)
      → ((l : Lookup) → Holds mode (next l))
      → Holds mode (round_on ask self alpha now target mode l next cs)
  unfolding round_on
  round_on-Holds mode l next [] k = λ bytes e. absurd (cc)
  round_on-Holds mode l next (b ∷ bs) k =
      conclude-Holds mode _ next (take_in-Holds mode (b ∷ bs) false _) k

  rounds-Holds :
      (mode : Mode) (n : ℕ) (l : Lookup) → Holds mode (rounds ask self alpha now target mode n l)
  unfolding rounds
  rounds-Holds mode zero l = λ bytes e. absurd (cc)
  rounds-Holds mode (suc n) l = round_on-Holds mode _ _ _ (rounds-Holds mode n)

  value_of-carried :
      (m : Mode) (r : Reply) (bytes : List ℕ)
      → value_of m r ≡ some bytes
      → (m ≡ find_value) × (r.value ≡ some bytes) × (bytes ≢ [])
  value_of-carried find_node r bytes b = absurd (cc)
  value_of-carried find_value r bytes b = carried r.value b
    where
      carried :
          (v : Option (List ℕ))
          → elim v [ none ↦ none | some bs ↦ elim bs [ [] ↦ none | x ∷ xs ↦ some (x ∷ xs) ] ]
            ≡ some bytes
          → (find_value ≡ find_value) × (v ≡ some bytes) × (bytes ≢ [])
      carried none e = absurd (cc)
      carried (some []) e = absurd (cc)
      carried (some (x ∷ xs)) e = (refl, e, λ z. absurd (cc))

  -- A value that a lookup finds is not empty, the lookup is one for a value, and some contact that
  -- was asked answered with exactly these bytes.
  pub iterative_find-Holds :
      (mode : Mode) (t : RoutingTable) (f : Found) (bytes : List ℕ)
      → iterative_find ask self alpha now target mode t ≡ some f
      → f.value ≡ some bytes
      → (mode ≡ find_value)
        × (bytes ≢ [])
        × (c : Contact) × (r : Reply) × (ask c ≡ some r)
        × (r.value ≡ some bytes)
  unfolding iterative_find
  iterative_find-Holds mode t f bytes e q =
      let (c, r, a, b) = held in
      let (m, v, n) = value_of-carried mode r bytes b in (m, n, c, r, a, v)
    where
      held : IsHeld mode bytes
      held = subst (Holds mode) e (rounds-Holds mode 16 (start ask self alpha now target t)) bytes q
