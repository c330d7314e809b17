-- ===== src/Dht/Table/Bounds.antt =====
-- Each bucket has at most `k` contacts, and each contact is in the bucket of its distance.
use ccn.Prelude.{
  string_key, ℕ, zero, suc, ◌≤◌, ◌≡◌, ◌⊎◌, refl, sym, subst, ap, ◌∙◌, inl, inr, Bool, Option, none,
  some, String, List, [], ◌∷◌, leb, length, get_elem?, All, All-append, length-append, if_cases,
  arith,
}
use mathlib.Core.Option.{some-injective}
use ccn.Dht.NodeId.{NodeId, node_id_bits, bucket_index, same_id}
use ccn.Dht.Table.{
  Contact, RoutingTable, pull, is_same, sight, sight_of, observe_in, observe_at, set_at, observe,
}

abbrev pub InBucket : NodeId → ℕ → Contact → Type 0
InBucket self i c = bucket_index self c.id ≡ some (some i)

abbrev pub IsBucket : NodeId → ℕ → ℕ → List Contact → Type 0
IsBucket self k i b = (length b ≤ k) × All (InBucket self i) b

abbrev pub AreBuckets : NodeId → ℕ → List (List Contact) → Type 0
AreBuckets self k bs =
    (length bs ≡ node_id_bits)
    × ((i : ℕ) (b : List Contact) → get_elem? bs i ≡ some b → IsBucket self k i b)

abbrev pub IsTable : RoutingTable → Type 0
IsTable t = AreBuckets t.self t.k t.buckets

-- What `pull` leaves: one contact less, and all of them in their bucket.
abbrev pub Pulls : NodeId → ℕ → List Contact → Option (Contact × List Contact) → Type 0
Pulls self i b none = Unit {0}
Pulls self i b (some (c, others)) =
    (length b ≡ suc (length others)) × InBucket self i c × All (InBucket self i) others

pub pull-Pulls :
    (self : NodeId) (i : ℕ) (p : Contact → Bool) (b : List Contact)
    → All (InBucket self i) b
    → Pulls self i b (pull p b)
unfolding pull
pull-Pulls self i p [] h = tt
pull-Pulls self i p (d ∷ ds) (q, h) =
    if_cases (Pulls self i (d ∷ ds)) (p d) _ _ (λ t. (refl, q, h))
      (λ t.
        elim (pull p ds)
            as (λ x.
              Pulls self i ds x
              → Pulls self i (d ∷ ds) (elim x [ none ↦ none | some (e, es) ↦ some (e, d ∷ es) ])) [
                | none ↦ λ k. tt
                | some (e, es) ↦ λ (l, r, k). (ap suc l, r, (q, k))
              ]
          (pull-Pulls self i p ds h))

sight_of-IsBucket :
    (self : NodeId) (k i : ℕ) (id : NodeId) (handle : String) (now : ℕ) (b : List Contact)
    (o : Option (Contact × List Contact))
    → bucket_index self id ≡ some (some i)
    → IsBucket self k i b
    → Pulls self i b o
    → IsBucket self k i (sight_of k id handle now b o).0
sight_of-IsBucket self k i id handle now b (some (c, others)) e (l, h) (n, q, r) = (
  omega (arith, length-append others (record c { last_seen = now } ∷ [])),
  All-append (InBucket self i) others _ r (q, tt),
)
sight_of-IsBucket self k i id handle now b none e (l, h) p =
    if_cases (λ (r : List Contact × Bool). IsBucket self k i r.0) (leb k (length b)) _ _
      (λ t. (l, h))
      (λ t. (
        ground (arith, length-append b (fresh ∷ [])),
        All-append (InBucket self i) b (fresh ∷ []) h (e, tt),
      ))
  where
    fresh : Contact
    fresh = record { id = id; handle = handle; last_seen = now }

get_elem?-set_at :
    (i j : ℕ) (b x : List Contact) (bs : List (List Contact))
    → get_elem? (set_at i b bs) j ≡ some x
    → ((j ≡ i) × (x ≡ b)) ⊎ (get_elem? bs j ≡ some x)
unfolding set_at
get_elem?-set_at i j b x [] e = inr e
get_elem?-set_at zero zero b x (c ∷ cs) e = inl (refl, sym (some-injective _ _ e))
get_elem?-set_at zero (suc j) b x (c ∷ cs) e = inr e
get_elem?-set_at (suc i) zero b x (c ∷ cs) e = inr e
get_elem?-set_at (suc i) (suc j) b x (c ∷ cs) e = elim (get_elem?-set_at i j b x cs e) [
  | inl (p, q) ↦ inl (ap suc p, q)
  | inr r ↦ inr r
]

length-set_at :
    (i : ℕ) (b : List Contact) (bs : List (List Contact)) → length (set_at i b bs) ≡ length bs
unfolding set_at
length-set_at i b [] = refl
length-set_at zero b (c ∷ cs) = refl
length-set_at (suc i) b (c ∷ cs) = ap suc (length-set_at i b cs)

-- A table that `observe` left; a throw left none.
abbrev pub Leaves : NodeId → ℕ → Option (RoutingTable × Bool) → Type 0
Leaves self k none = Unit {0}
Leaves self k (some (t, is_new)) = (t.self ≡ self) × (t.k ≡ k) × AreBuckets self k t.buckets

observe_in-Leaves :
    (id : NodeId) (handle : String) (now : ℕ) (t : RoutingTable) (i : ℕ) (o : Option (List Contact))
    → IsTable t
    → bucket_index t.self id ≡ some (some i)
    → get_elem? t.buckets i ≡ o
    → Leaves t.self t.k (observe_in id handle now t i o)
unfolding observe_in sight
observe_in-Leaves id handle now t i none h e q = tt
observe_in-Leaves id handle now t i (some b) (n, h) e q = (
  refl,
  refl,
  (
    length-set_at i _ t.buckets ∙ n,
    λ j x r. elim (get_elem?-set_at i j _ x t.buckets r) [
      | inl (p, s) ↦
          subst (λ j. IsBucket t.self t.k j x) (sym p)
            (subst (IsBucket t.self t.k i) (sym s) (
              sight_of-IsBucket t.self t.k i id handle now b (pull (is_same handle id) b) e
                (h i b q) (pull-Pulls t.self i (is_same handle id) b (h i b q).1)))
      | inr s ↦ h j x s
    ],
  ),
)

observe_at-Leaves :
    (id : NodeId) (handle : String) (now : ℕ) (t : RoutingTable) (o : Option (Option ℕ))
    → IsTable t
    → bucket_index t.self id ≡ o
    → Leaves t.self t.k (observe_at id handle now t o)
unfolding observe_at
observe_at-Leaves id handle now t none h e = tt
observe_at-Leaves id handle now t (some none) h e = (refl, refl, h)
observe_at-Leaves id handle now t (some (some i)) h e =
    observe_in-Leaves id handle now t i (get_elem? t.buckets i) h e refl

pub observe-Leaves :
    (id : NodeId) (handle : String) (now : ℕ) (t : RoutingTable)
    → IsTable t
    → Leaves t.self t.k (observe id handle now t)
unfolding observe
observe-Leaves id handle now t h =
    if_cases (Leaves t.self t.k) (same_id id t.self) _ _ (λ e. (refl, refl, h))
      (λ e. observe_at-Leaves id handle now t (bucket_index t.self id) h refl)
