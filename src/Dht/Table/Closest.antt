-- ===== src/Dht/Table/Closest.antt =====
-- `closest` of kbucket.ts: the order by the distance to a target, and the contacts that it takes.
use mathlib.Core.List.{Perm}
use ccn.Prelude.{
  ℕ, suc, ◌≡◌, refl, sym, ◌∙◌, ap, inl, inr, List, [], ◌∷◌, some, get_elem?, eqb, eqb_iff,
  All-append, length, drop, take-append-drop, ◌++◌, min, length-take, All, All-mono, Bool-cases,
  arith,
}
use ccn.Dht.NodeId.{NodeId, xor_distance, bucket_index}
use ccn.Dht.Table.Bounds.{InBucket, IsTable}
use ccn.Dht.Table.{Contact, RoutingTable, sort, contact_id, closest, contacts_of, all_contacts}
use ccn.Dht.Table.Distance.{IsNoFarther, IsBelow-IsNoFarther}
use ccn.Dht.Table.Sorting.{IsNearer, IsSorted, sort-All, sort-IsSorted, length-sort, sort-perm}

-- A contact in a bucket has an identifier as long as that of the table.
InBucket-IsWide :
    (self : NodeId) (i : ℕ) (c : Contact) → InBucket self i c → length c.id ≡ length self
unfolding bucket_index xor_distance
InBucket-IsWide self i c h = elim (Bool-cases (eqb (length self) (length c.id))) [
  | inl e ↦ sym ((eqb_iff (length self) (length c.id)).0 e)
  | inr e ↦ absurd (ground arith)
]

contacts_of-IsWide :
    (self : NodeId) (bs : List (List Contact))
    → ((i : ℕ) (b : List Contact)
        → get_elem? bs i ≡ some b
        → All (λ c. length c.id ≡ length self) b)
    → All (λ c. length c.id ≡ length self) (contacts_of bs)
unfolding contacts_of
contacts_of-IsWide self [] h = tt
contacts_of-IsWide self (b ∷ bs) h =
    All-append (λ c. length c.id ≡ length self) b (contacts_of bs) (h 0 b refl)
      (contacts_of-IsWide self bs (λ i x e. h (suc i) x e))

-- Each is no farther from the target than those behind it.
abbrev pub IsOrdered : NodeId → List Contact → Type 0
IsOrdered target [] = Unit
IsOrdered target (c ∷ cs) = All (λ d. IsNoFarther target c.id d.id) cs × IsOrdered target cs

ahead :
    (target : NodeId) (n : ℕ) (c : Contact) (ds : List Contact)
    → length c.id ≡ n
    → All (λ d. length d.id ≡ n) ds
    → All (IsNearer contact_id target c) ds
    → All (λ d. IsNoFarther target c.id d.id) ds
ahead target n c [] w ws h = tt
ahead target n c (d ∷ ds) w (v, ws) (k, h) =
    (IsBelow-IsNoFarther target c.id d.id (w ∙ sym v) k, ahead target n c ds w ws h)

IsSorted-IsOrdered :
    (target : NodeId) (n : ℕ) (cs : List Contact)
    → All (λ d. length d.id ≡ n) cs
    → IsSorted contact_id target cs
    → IsOrdered target cs
IsSorted-IsOrdered target n [] w s = tt
IsSorted-IsOrdered target n (c ∷ cs) (w, ws) (h, s) =
    (ahead target n c cs w ws h, IsSorted-IsOrdered target n cs ws s)

-- What `closest` promises: as many of the contacts as it was asked for, or all of them. With the
-- others behind them they are the contacts, each as often as it was there, and each is no farther
-- from the target than those behind it.
pub record AreClosest (target : NodeId) (count : ℕ) (contacts found : List Contact) : Type 0 where
  pub as_many : length found ≡ min count (length contacts)
  pub others : List Contact
  pub rearranged : Perm (found ++ others) contacts
  pub ordered : IsOrdered target (found ++ others)

-- The contacts that `closest` takes from a table whose contacts stand in their buckets are as many
-- as it was asked for, or all of them; they are contacts of the table, none more often than it is
-- there, the nearest first, and no contact that is left out is nearer to the target than one of
-- them, in the XOR distance of the bytes, the highest byte first.
pub closest-AreClosest :
    (target : NodeId) (count : ℕ) (t : RoutingTable)
    → IsTable t
    → AreClosest target count (all_contacts t) (closest target count t)
unfolding closest
closest-AreClosest target count t (n, h) =
    let contacts = contacts_of t.buckets in
    let sorted = sort contact_id target contacts in
    let wide =
      contacts_of-IsWide t.self t.buckets
        (λ i b e. All-mono b (λ c. InBucket-IsWide t.self i c) (h i b e).1) in
    let whole = take-append-drop count sorted in
    record {
      as_many = length-take count sorted ∙ ap (min count) (length-sort contact_id target contacts);
      others = drop count sorted;
      rearranged = rw whole (sort-perm contact_id target contacts);
      ordered = rw whole (
          IsSorted-IsOrdered target (length t.self) sorted
            (sort-All contact_id target (λ c. length c.id ≡ length t.self) contacts wide)
            (sort-IsSorted contact_id target (length t.self) contacts wide));
    }
