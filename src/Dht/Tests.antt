-- ===== src/Dht/Tests.antt =====
-- Runs of the routing table and of the lookup, and the theorems at concrete inputs.
use ccn.Prelude.{
  string_key, List, ◌≢◌, ℕ, ◌≡◌, refl, true, Option, none, some, String, [], ◌∷◌, ◌++◌, replicate,
  if◌then◌else◌, ◌==◌,
}
use ccn.Dht.NodeId.{NodeId, byte_cmp, xor}
use ccn.Dht.Table.{Contact, RoutingTable, new_table, sort, closest, insert, all_contacts}
use ccn.Dht.Table.Bounds.{IsTable}
use ccn.Dht.Table.Calls.{sights, removes, run, run-IsTable}
use ccn.Dht.Table.Closest.{AreClosest, closest-AreClosest}
use ccn.Dht.Lookup.{Reply, find_value, Found, iterative_find}
use ccn.Dht.Lookup.Origin.{iterative_find-Holds}
use ccn.Dht.Lookup.Early.{iterative_find_silent}

-- Identifiers of twenty bytes that differ in the last one.
abbrev id_of : ℕ → NodeId
id_of n = replicate 19 0 ++ (n ∷ [])

run-IsTable_example : IsTable (
    run
      (removes "a" ∷ sights (id_of 2) "b" 7 ∷ sights (id_of 1) "a" 6 ∷ [])
      (new_table (id_of 0) 1))
run-IsTable_example =
    run-IsTable (id_of 0) 1 (removes "a" ∷ sights (id_of 2) "b" 7 ∷ sights (id_of 1) "a" 6 ∷ [])

-- Three contacts that were seen, two of which are asked for.
abbrev three : RoutingTable
three =
    run (sights (id_of 3) "c" 8 ∷ sights (id_of 2) "b" 7 ∷ sights (id_of 1) "a" 6 ∷ [])
      (new_table (id_of 0) 2)

closest-AreClosest_example : AreClosest (id_of 2) 2 (all_contacts three) (closest (id_of 2) 2 three)
closest-AreClosest_example = closest-AreClosest (id_of 2) 2 three (
    run-IsTable (id_of 0) 2
      (sights (id_of 3) "c" 8 ∷ sights (id_of 2) "b" 7 ∷ sights (id_of 1) "a" 6 ∷ []))

abbrev contact_of : String → ℕ → Contact
contact_of handle n = record { id = id_of n; handle = handle; last_seen = 0 }

-- Four contacts, of which only the farthest answers, with the value.
abbrev four : RoutingTable
four = record {
  self = id_of 255;
  k = 8;
  buckets = (contact_of "a" 1 ∷ contact_of "b" 2 ∷ contact_of "c" 3 ∷ contact_of "d" 4 ∷ []) ∷ [];
}

abbrev only_last : Contact → Option Reply
only_last c =
    if c.handle == "d" then some (record { value = some (42 ∷ []); contacts = [] }) else none

last_test : only_last (contact_of "d" 4) ≡ some (record { value = some (42 ∷ []); contacts = [] })
last_test = refl

iterative_find_silent_example :
    (f : Found) × (iterative_find only_last "me" 3 9 (id_of 0) find_value four ≡ some f)
    × (f.value ≡ none)
unfolding sort insert closest byte_cmp xor
iterative_find_silent_example =
    iterative_find_silent only_last "me" 3 9 (id_of 0) find_value four (refl, (refl, (refl, tt)))

abbrev one : RoutingTable
one = record { self = id_of 255; k = 8; buckets = (contact_of "d" 4 ∷ []) ∷ [] }

abbrev found : Found
found = record {
  value = some (42 ∷ []);
  lookup = record {
    table = one;
    seen = "d" ∷ [];
    candidates = record { contact = contact_of "d" 4; queried = true } ∷ [];
  };
}

iterative_find-Holds_example :
    (find_value ≡ find_value)
    × (◌≢◌ {A = List ℕ} (42 ∷ []) [])
    × (c : Contact) × (r : Reply) × (only_last c ≡ some r)
    × (r.value ≡ some (42 ∷ []))
unfolding sort insert closest iterative_find
iterative_find-Holds_example =
    iterative_find-Holds only_last "me" 3 9 (id_of 0) find_value one found (42 ∷ []) refl refl
