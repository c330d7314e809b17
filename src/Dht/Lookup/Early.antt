-- ===== src/Dht/Lookup/Early.antt =====
-- When a lookup ends.
use ccn.Prelude.{string_key, ℕ, ◌≡◌, refl, false, Option, none, some, String, List, [], ◌∷◌, All}
use ccn.Dht.NodeId.{NodeId}
use ccn.Dht.Table.{Contact, RoutingTable, sort}
use ccn.Dht.Lookup.{
  Reply, Mode, Candidate, Lookup, Found, candidate_id, take_in, answers, mark, batch_of, round_on,
  rounds, start, iterative_find,
}

module _ (ask : Contact → Option Reply) (self : String) (alpha now : ℕ) (target : NodeId) where
  abbrev pub IsSilent : Candidate → Type 0
  IsSilent c = ask c.contact ≡ none

  take_in_silent :
      (mode : Mode) (cs : List Candidate) (l : Lookup)
      → All IsSilent cs
      → take_in self now mode (answers ask self alpha now target cs) false l
        ≡ some (record { value = none; lookup = l }, false)
  unfolding take_in
  take_in_silent mode [] l h = refl
  take_in_silent mode (c ∷ cs) l (e, h) = rw e (take_in_silent mode cs l h)

  round_on_silent :
      (mode : Mode) (l : Lookup) (next : Lookup → Option Found) (cs : List Candidate)
      → All IsSilent cs
      → (f : Found) × (round_on ask self alpha now target mode l next cs ≡ some f)
        × (f.value ≡ none)
  unfolding round_on
  round_on_silent mode l next [] h = (_, refl, refl)
  round_on_silent mode l next (b ∷ bs) h =
      rw (take_in_silent mode (b ∷ bs) (record l { candidates = mark alpha l.candidates }) h)
        (_, refl, refl)

  -- A lookup whose first round asks only contacts that do not answer finds no value: it ends with
  -- that round, whatever the other candidates that it knows would have answered.
  pub iterative_find_silent :
      (mode : Mode) (t : RoutingTable)
      → All IsSilent (
          batch_of ask self alpha now target
            (sort candidate_id target (start ask self alpha now target t).candidates))
      → (f : Found) × (iterative_find ask self alpha now target mode t ≡ some f) × (f.value ≡ none)
  unfolding iterative_find rounds
  iterative_find_silent mode t h = round_on_silent mode _ _ _ h
