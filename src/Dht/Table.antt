-- ===== src/Dht/Table.antt =====
-- frontend/src/lib/dht/kbucket.ts: `RoutingTable`, 160 buckets of at most `k` contacts.
pub mod Bounds
pub mod Calls
pub mod Distance
pub mod Sorting
pub mod Closest
use Prim.Native.Nat.{Ordering}
use ccn.Prelude.{
  string_key, ℕ, zero, suc, ◌+◌, Bool, true, false, ◌||◌, Option, none, some, String, List, [], ◌∷◌,
  ◌++◌, map, if◌then◌else◌, ltb, leb, ◌==◌, length, take, replicate, get_elem?,
}
use ccn.Dht.NodeId.{NodeId, node_id_bits, bucket_index, same_id, xor, byte_cmp}

pub record Contact : Type 0 where
  pub id : NodeId
  pub handle : String
  pub last_seen : ℕ

pub record RoutingTable : Type 0 where
  pub self : NodeId
  pub k : ℕ
  pub buckets : List (List Contact)

abbrev pub new_table : NodeId → ℕ → RoutingTable
new_table self k = record { self = self; k = k; buckets = replicate node_id_bits [] }

-- `findIndex` and `splice`: the first contact that passes the test, and the others.
unfoldable pub pull : (Contact → Bool) → List Contact → Option (Contact × List Contact)
pull p [] = none
pull p (c ∷ cs) =
    let rest = pull p cs in
    if p c then some (c, cs) else elim rest [ none ↦ none | some (d, ds) ↦ some (d, c ∷ ds) ]

-- The test of `observe`.
abbrev pub is_same : String → NodeId → Contact → Bool
is_same handle id c = (c.handle == handle) || same_id c.id id

-- The body of `observe`, after the search of the bucket.
abbrev pub sight_of :
    ℕ → NodeId → String → ℕ → List Contact → Option (Contact × List Contact) → List Contact × Bool
sight_of k id handle now bucket (some (existing, others)) =
    (others ++ (record existing { last_seen = now } ∷ []), false)
sight_of k id handle now bucket none =
    if leb k (length bucket)
    then (bucket, false)
    else (bucket ++ (record { id = id; handle = handle; last_seen = now } ∷ []), true)

unfoldable pub sight : ℕ → NodeId → String → ℕ → List Contact → List Contact × Bool
unfolding pull
sight k id handle now bucket = sight_of k id handle now bucket (pull (is_same handle id) bucket)

unfoldable pub set_at : ℕ → List Contact → List (List Contact) → List (List Contact)
set_at i b [] = []
set_at zero b (c ∷ cs) = b ∷ cs
set_at (suc i) b (c ∷ cs) = c ∷ set_at i b cs

-- The result of `observe` is `none` where `bucketIndex` throws.
unfoldable pub observe_in :
    NodeId → String → ℕ → RoutingTable → ℕ → Option (List Contact) → Option (RoutingTable × Bool)
unfolding sight set_at
observe_in id handle now t i none = none
observe_in id handle now t i (some bucket) = some (
  record t { buckets = set_at i (sight t.k id handle now bucket).0 t.buckets },
  (sight t.k id handle now bucket).1,
)

unfoldable pub observe_at :
    NodeId → String → ℕ → RoutingTable → Option (Option ℕ) → Option (RoutingTable × Bool)
unfolding observe_in
observe_at id handle now t none = none
observe_at id handle now t (some none) = some (t, false)
observe_at id handle now t (some (some i)) = observe_in id handle now t i (get_elem? t.buckets i)

unfoldable pub observe : NodeId → String → ℕ → RoutingTable → Option (RoutingTable × Bool)
unfolding observe_at
observe id handle now t =
    if same_id id t.self
    then some (t, false)
    else observe_at id handle now t (bucket_index t.self id)

-- One bucket of the loop of `remove`, and what the loop does with the buckets after it.
abbrev pub remove_one :
    List Contact
    → List (List Contact)
    → List (List Contact) × Bool
    → Option (Contact × List Contact)
    → List (List Contact) × Bool
remove_one b bs rest (some (c, others)) = (others ∷ bs, true)
remove_one b bs rest none = (b ∷ rest.0, rest.1)

unfoldable pub remove_from : String → List (List Contact) → List (List Contact) × Bool
unfolding pull
remove_from handle [] = ([], false)
remove_from handle (b ∷ bs) =
    remove_one b bs (remove_from handle bs) (pull (λ c. c.handle == handle) b)

unfoldable pub remove : String → RoutingTable → RoutingTable × Bool
unfolding remove_from
remove handle t =
    let (bs, found) = remove_from handle t.buckets in (record t { buckets = bs }, found)

unfoldable pub size_of : List (List Contact) → ℕ
size_of [] = 0
size_of (b ∷ bs) = length b + size_of bs

abbrev pub bucket_sizes : RoutingTable → List ℕ
bucket_sizes t = map length t.buckets

unfoldable pub contacts_of : List (List Contact) → List Contact
contacts_of [] = []
contacts_of (b ∷ bs) = b ++ contacts_of bs

abbrev pub all_contacts : RoutingTable → List Contact
unfolding contacts_of
all_contacts t = contacts_of t.buckets

-- The comparison of `closest`: whether `a` may stand before `b`.
abbrev pub is_nearer : NodeId → NodeId → NodeId → Bool
is_nearer target a b = elim (byte_cmp (xor a target) (xor b target)) [
  | Ordering.gt ↦ false
  | _ ↦ true
]

-- `Array.prototype.sort` is stable: an element goes before the first that is not nearer.
module _ {A : Type 0} (id_of : A → NodeId) (target : NodeId) where
  unfoldable pub insert : A → List A → List A
  insert c [] = c ∷ []
  insert c (d ∷ ds) = if is_nearer target (id_of c) (id_of d) then c ∷ d ∷ ds else d ∷ insert c ds

  unfoldable pub sort : List A → List A
  unfolding insert
  sort [] = []
  sort (c ∷ cs) = insert c (sort cs)

abbrev pub contact_id : Contact → NodeId
contact_id c = c.id

unfoldable pub closest : NodeId → ℕ → RoutingTable → List Contact
unfolding sort contacts_of
closest target count t = take count (sort contact_id target (contacts_of t.buckets))
