-- ===== src/Dht/Lookup.antt =====
-- frontend/src/lib/dht/kademlia.ts: `iterativeFind`. The answer of a contact to the one request it
-- gets is a parameter; `none` is a request that fails or runs out of time. The clock is read once.
pub mod Early
pub mod Origin
use ccn.Prelude.{
  string_key, ℕ, zero, suc, Bool, true, false, not, ◌||◌, Option, none, some, String, List, [], ◌∷◌,
  ◌++◌, map, if◌then◌else◌, ◌==◌, take,
}
use ccn.Dht.NodeId.{NodeId}
use ccn.Dht.Table.{Contact, RoutingTable, observe, sort, closest}

-- A contact of a reply; the identifier is `none` where `hexToBytes` throws.
pub record Named : Type 0 where
  pub id : Option NodeId
  pub handle : String

pub record Reply : Type 0 where
  pub value : Option (List ℕ)
  pub contacts : List Named

pub data Mode : Type 0 where
  find_node find_value : Mode

pub record Candidate : Type 0 where
  pub contact : Contact
  pub queried : Bool

pub record Lookup : Type 0 where
  pub table : RoutingTable
  pub seen : List String
  pub candidates : List Candidate

-- How the search ended: an error, or the value found, if any.
pub record Found : Type 0 where
  pub value : Option (List ℕ)
  pub lookup : Lookup

abbrev pub has_seen : String → List String → Bool
has_seen h [] = false
has_seen h (s ∷ ss) = (s == h) || has_seen h ss

abbrev pub candidate_id : Candidate → NodeId
candidate_id c = c.contact.id

abbrev pub unqueried : List Candidate → List Candidate
unqueried [] = []
unqueried (c ∷ cs) = let rest = unqueried cs in if c.queried then rest else c ∷ rest

-- `queried` is set on the first `n` candidates that lack it: those of the batch.
abbrev pub mark : ℕ → List Candidate → List Candidate
mark n [] = []
mark zero cs = cs
mark (suc n) (c ∷ cs) =
    if c.queried then c ∷ mark (suc n) cs else record c { queried = true } ∷ mark n cs

-- A value that is empty is an empty string in base 64, which is falsy.
abbrev pub value_of : Mode → Reply → Option (List ℕ)
value_of find_node r = none
value_of find_value r = elim r.value [
  | none ↦ none
  | some bytes ↦ elim bytes [ [] ↦ none | b ∷ bs ↦ some (b ∷ bs) ]
]

module _ (self : String) (now : ℕ) where
  -- A new candidate is observed and goes to the end; `none` where an identifier throws.
  abbrev pub add : Option NodeId → String → Lookup → Option Lookup
  add none handle l = none
  add (some id) handle l = elim (observe id handle now l.table) [
    | none ↦ none
    | some (t, is_new) ↦ some (record {
      table = t;
      seen = handle ∷ l.seen;
      candidates =
          l.candidates
          ++ (record {
            contact = record { id = id; handle = handle; last_seen = now };
            queried = false;
          }
              ∷ []);
    })
  ]

  -- The contacts of a reply, and whether one of them was new.
  unfoldable pub learn : List Named → Lookup → Option (Lookup × Bool)
  learn [] l = some (l, false)
  learn (c ∷ cs) l =
      if has_seen c.handle l.seen || c.handle == self
      then learn cs l
      else elim (add c.id c.handle l) [
        | none ↦ none
        | some l' ↦ elim (learn cs l') [ none ↦ none | some (l'', learned) ↦ some (l'', true) ]
      ]

  -- One reply: its value, or else what was learned of its contacts, before the other replies.
  abbrev pub absorb :
      Option (List ℕ)
      → Option (Lookup × Bool)
      → Bool
      → Lookup
      → (Bool → Lookup → Option (Found × Bool))
      → Option (Found × Bool)
  absorb (some bytes) learnt learned l next =
      some (record { value = some bytes; lookup = l }, learned)
  absorb none none learned l next = none
  absorb none (some (l', more)) learned l next = next (learned || more) l'

  -- The loop over the replies: a value ends it.
  unfoldable pub take_in : Mode → List (Option Reply) → Bool → Lookup → Option (Found × Bool)
  unfolding learn
  take_in mode [] learned l = some (record { value = none; lookup = l }, learned)
  take_in mode (none ∷ rs) learned l = take_in mode rs learned l
  take_in mode (some r ∷ rs) learned l =
      absorb (value_of mode r) (learn r.contacts l) learned l (take_in mode rs)

module _ (ask : Contact → Option Reply) (self : String) (alpha now : ℕ) (target : NodeId) where
  abbrev pub batch_of : List Candidate → List Candidate
  batch_of cs = take alpha (unqueried cs)

  abbrev pub answers : List Candidate → List (Option Reply)
  answers [] = []
  answers (c ∷ cs) = ask c.contact ∷ answers cs

  -- The end of a round: an error, a value, no new candidate, or the next round.
  abbrev pub conclude : Option (Found × Bool) → (Lookup → Option Found) → Option Found
  conclude none next = none
  conclude (some (f, learned)) next = elim f.value [
    | some bytes ↦ some f
    | none ↦ if learned then next f.lookup else some f
  ]

  -- A round on sorted candidates with its batch.
  unfoldable pub round_on : Mode → Lookup → (Lookup → Option Found) → List Candidate → Option Found
  unfolding take_in
  round_on mode l next [] = some (record { value = none; lookup = l })
  round_on mode l next (b ∷ bs) =
      conclude
        (take_in self now mode (answers (b ∷ bs)) false
          (record l { candidates = mark alpha l.candidates }))
        next

  unfoldable pub rounds : Mode → ℕ → Lookup → Option Found
  unfolding round_on sort
  rounds mode zero l = some (record { value = none; lookup = l })
  rounds mode (suc n) l =
      let ordered = sort candidate_id target l.candidates in
      round_on mode (record l { candidates = ordered }) (rounds mode n) (batch_of ordered)

  abbrev pub fresh : Contact → Candidate
  fresh c = record { contact = c; queried = false }

  abbrev pub handle_of : Contact → String
  handle_of c = c.handle

  abbrev pub start : RoutingTable → Lookup
  start t =
      let known = closest target t.k t in
      record { table = t; seen = map handle_of known; candidates = map fresh known }

  -- Sixteen rounds; without candidates there is nothing to ask.
  unfoldable pub iterative_find : Mode → RoutingTable → Option Found
  unfolding rounds
  iterative_find mode t = rounds mode 16 (start t)

-- The contacts that the lookup returns.
abbrev pub closest_of : ℕ → Found → List Contact
closest_of k f = map (λ c. c.contact) (take k f.lookup.candidates)
