-- ===== src/Dht/Table/Calls.antt =====
-- Runs of calls on a routing table: `observe` and `remove`.
use ccn.Prelude.{
  string_key, ℕ, zero, suc, ◌≡◌, refl, sym, subst, ap, ◌∙◌, Bool, Option, none, some, String, List,
  [], ◌∷◌, length, get_elem?, replicate, All, arith, ◌==◌,
}
use mathlib.Core.Option.{some-injective}
use ccn.Dht.NodeId.{NodeId, node_id_bits}
use ccn.Dht.Table.{Contact, RoutingTable, new_table, pull, remove_one, observe, remove_from, remove}
use ccn.Dht.Table.Bounds.{
  InBucket, IsBucket, AreBuckets, IsTable, Pulls, pull-Pulls, Leaves, observe-Leaves,
}

-- Buckets that lost contacts, one for one.
abbrev Shrinks : NodeId → ℕ → List (List Contact) → List (List Contact) → Type 0
Shrinks self k bs cs =
    (length cs ≡ length bs)
    × ((i j : ℕ) (x : List Contact)
        → get_elem? cs i ≡ some x
        → ((b : List Contact) → get_elem? bs i ≡ some b → IsBucket self k j b)
        → IsBucket self k j x)

remove_one-Shrinks :
    (self : NodeId) (k : ℕ) (b : List Contact) (bs : List (List Contact))
    (rest : List (List Contact) × Bool) (o : Option (Contact × List Contact))
    → ((j : ℕ) → All (InBucket self j) b → Pulls self j b o)
    → Shrinks self k bs rest.0
    → Shrinks self k (b ∷ bs) (remove_one b bs rest o).0
remove_one-Shrinks self k b bs rest none p (n, h) = (ap suc n, keep)
  where
    keep :
        (i j : ℕ) (x : List Contact)
        → get_elem? (b ∷ rest.0) i ≡ some x
        → ((y : List Contact) → get_elem? (b ∷ bs) i ≡ some y → IsBucket self k j y)
        → IsBucket self k j x
    keep zero j x e f = subst (IsBucket self k j) (some-injective _ _ e) (f b refl)
    keep (suc i) j x e f = h i j x e f
remove_one-Shrinks self k b bs rest (some (c, others)) p (n, h) = (refl, keep)
  where
    keep :
        (i j : ℕ) (x : List Contact)
        → get_elem? (others ∷ bs) i ≡ some x
        → ((y : List Contact) → get_elem? (b ∷ bs) i ≡ some y → IsBucket self k j y)
        → IsBucket self k j x
    keep zero j x e f =
        let (l, a) = f b refl in
        let (m, q, r) = p j a in subst (IsBucket self k j) (some-injective _ _ e) (omega arith, r)
    keep (suc i) j x e f = f x e

remove_from-Shrinks :
    (self : NodeId) (k : ℕ) (handle : String) (bs : List (List Contact))
    → Shrinks self k bs (remove_from handle bs).0
unfolding remove_from
remove_from-Shrinks self k handle [] = (refl, λ i j x e f. absurd (cc))
remove_from-Shrinks self k handle (b ∷ bs) =
    remove_one-Shrinks self k b bs (remove_from handle bs) (pull (λ c. c.handle == handle) b)
      (λ j a. pull-Pulls self j (λ c. c.handle == handle) b a)
      (remove_from-Shrinks self k handle bs)

-- A call on the table: a sighting of a contact at a time, or the removal of a handle.
pub data Call : Type 0 where
  sights : NodeId → String → ℕ → Call
  removes : String → Call

-- What is left of the table; a sighting that throws leaves it as it was.
abbrev pub left_by : Option (RoutingTable × Bool) → RoutingTable → RoutingTable
left_by none t = t
left_by (some (u, is_new)) t = u

pub call : Call → RoutingTable → RoutingTable
call (sights id handle now) t = left_by (observe id handle now t) t
call (removes handle) t = (remove handle t).0

-- Calls, the last one first.
pub run : List Call → RoutingTable → RoutingTable
run [] t = t
run (c ∷ cs) t = call c (run cs t)

left_by-IsTable :
    (o : Option (RoutingTable × Bool)) (t : RoutingTable)
    → IsTable t
    → Leaves t.self t.k o
    → IsTable (left_by o t)
left_by-IsTable none t h l = h
left_by-IsTable (some (u, is_new)) t h (e, f, l) =
    subst (λ s. AreBuckets s u.k u.buckets) (sym e)
      (subst (λ k. AreBuckets t.self k u.buckets) (sym f) l)

call-IsTable : (c : Call) (t : RoutingTable) → IsTable t → IsTable (call c t)
unfolding call remove
call-IsTable (sights id handle now) t h =
    left_by-IsTable (observe id handle now t) t h (observe-Leaves id handle now t h)
call-IsTable (removes handle) t (n, h) =
    let (m, s) = remove_from-Shrinks t.self t.k handle t.buckets in
    (m ∙ n, λ i x e. s i i x e (h i))

empty : (n i : ℕ) (b : List Contact) → get_elem? (replicate n []) i ≡ some b → [] ≡ b
empty zero i b e = absurd (cc)
empty (suc n) zero b e = some-injective _ _ e
empty (suc n) (suc i) b e = empty n i b e

new_table-IsTable : (self : NodeId) (k : ℕ) → IsTable (new_table self k)
new_table-IsTable self k =
    (refl, λ i b e. subst (IsBucket self k i) (empty node_id_bits i b e) (omega arith, tt))

-- After any sightings and removals, in any order, a routing table has its 160 buckets, none of
-- them has more than `k` contacts, and each contact stands in the bucket that `bucketIndex` gives
-- for it.
pub run-IsTable : (self : NodeId) (k : ℕ) (cs : List Call) → IsTable (run cs (new_table self k))
unfolding run
run-IsTable self k [] = new_table-IsTable self k
run-IsTable self k (c ∷ cs) = call-IsTable c (run cs (new_table self k)) (run-IsTable self k cs)
