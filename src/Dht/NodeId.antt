-- ===== src/Dht/NodeId.antt =====
-- frontend/src/lib/dht/nodeId.ts: identifiers of 160 bits and their XOR distance. An identifier is
-- the list of its bytes; `none` stands for the error that unequal lengths throw.
use Prim.Native.Nat.{bit_xor, compare, Ordering}
use ccn.Prelude.{
  ℕ, zero, suc, ◌+◌, ◌-◌, ◌*◌, ◌/◌, ◌%◌, ◌^◌, Bool, true, false, Option, none, some, List, [], ◌∷◌,
  if◌then◌else◌, ltb, eqb, length, ◌≡◌, refl,
}

abbrev pub NodeId : Type 0
NodeId = List ℕ

abbrev pub node_id_bytes : ℕ
node_id_bytes = 20

abbrev pub node_id_bits : ℕ
node_id_bits = node_id_bytes * 8

abbrev pub is_node_id : NodeId → Bool
is_node_id v = eqb (length v) node_id_bytes

-- `xor` of kbucket.ts and kademlia.ts: an index past the end of `b` reads as 0.
unfoldable pub xor : NodeId → NodeId → NodeId
xor [] b = []
xor (x ∷ a) [] = bit_xor x 0 ∷ xor a []
xor (x ∷ a) (y ∷ b) = bit_xor x y ∷ xor a b

unfoldable pub xor_distance : NodeId → NodeId → Option NodeId
unfolding xor
xor_distance a b = if eqb (length a) (length b) then some (xor a b) else none

-- `byteCmp`; a comparison with a byte past the end is false.
unfoldable pub byte_cmp : NodeId → NodeId → Ordering
byte_cmp [] b = Ordering.eq
byte_cmp (x ∷ a) [] = byte_cmp a []
byte_cmp (x ∷ a) (y ∷ b) = elim (compare x y) [
  | Ordering.lt ↦ Ordering.lt
  | Ordering.gt ↦ Ordering.gt
  | Ordering.eq ↦ byte_cmp a b
]

unfoldable pub compare_distance : NodeId → NodeId → Option Ordering
unfolding byte_cmp
compare_distance a b = if eqb (length a) (length b) then some (byte_cmp a b) else none

-- The loop from `bit` down that finds the highest bit of a byte; 0 where there is none.
unfoldable pub highest_bit : ℕ → ℕ → ℕ
highest_bit byte zero = 0
highest_bit byte (suc bit) =
    let rest = highest_bit byte bit in if eqb ((byte / 2 ^ bit) % 2) 1 then bit else rest

-- The number of bits before the highest one, in a distance whose first byte has the index `i`.
unfoldable pub bits_from_top : ℕ → NodeId → Option ℕ
unfolding highest_bit
bits_from_top i [] = none
bits_from_top i (d ∷ ds) =
    let rest = bits_from_top (suc i) ds in
    if eqb d 0 then rest else some (i * 8 + (7 - highest_bit d 8))

-- A negative index is `none`: that of `self`, and those of distances longer than 160 bits.
abbrev pub index_of : Option ℕ → Option ℕ
index_of none = none
index_of (some bits) = if ltb bits node_id_bits then some (node_id_bits - 1 - bits) else none

unfoldable pub bucket_index : NodeId → NodeId → Option (Option ℕ)
unfolding xor_distance bits_from_top
bucket_index self target = elim (xor_distance self target) [
  | none ↦ none
  | some dist ↦ some (index_of (bits_from_top 0 dist))
]

abbrev pub same_id : NodeId → NodeId → Bool
same_id [] [] = true
same_id [] (y ∷ b) = false
same_id (x ∷ a) [] = false
same_id (x ∷ a) (y ∷ b) = if eqb x y then same_id a b else false

index_test :
    (bucket_index (0 ∷ 0 ∷ []) (0 ∷ 1 ∷ []) ≡ some (some 144))
    × (bucket_index (0 ∷ 0 ∷ []) (0 ∷ 0 ∷ []) ≡ some none)
unfolding bucket_index
index_test = (refl, refl)
