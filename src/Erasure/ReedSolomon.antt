-- ===== src/Erasure/ReedSolomon.antt =====
-- The class ReedSolomon of frontend/src/lib/erasure/reedSolomon.ts. A shard is its bytes; a missing
-- one is `none`.
pub mod Samples
pub mod Code
pub mod Independence
pub mod Presence
pub mod Rebuilding
pub mod Recovery
pub mod Loss
use ccn.Prelude.{ℕ, zero, suc, ◌+◌, Bool, true, false, ◌||◌, Option, none, some}
use ccn.Prelude.{List, [], ◌∷◌, map, length, take, replicate, get_elem?, eqb, ltb, if◌then◌else◌}
use ccn.Erasure.Outcome.{Outcome, ok, fail, ◌>>=◌, from_field, Failure}
use ccn.Erasure.Gf256.{mul_add_row}
use ccn.Erasure.Matrix.{
  Row, matrix_row, build_encoding_matrix, invert_matrix, tabulate, try_tabulate,
}

abbrev pub Shard : Type 0
Shard = List ℕ

pub record RsConfig : Type 0 where
  pub k : ℕ
  pub m : ℕ

pub record ReedSolomon : Type 0 where
  pub k : ℕ
  pub m : ℕ
  pub encoding_matrix : List Row

unfoldable pub with_matrix : RsConfig → Outcome ReedSolomon
with_matrix config = do
  matrix ← build_encoding_matrix config.k config.m
  ok (record { k = config.k; m = config.m; encoding_matrix = matrix })

-- The constructor.
unfoldable pub new_reed_solomon : RsConfig → Outcome ReedSolomon
new_reed_solomon config =
    if ltb config.k 1
    then fail Failure.k_below_one
    else (if ltb config.m 1
        then fail Failure.m_below_one
        else (if ltb 256 (config.k + config.m)
            then fail Failure.too_many_shards
            else with_matrix config))

unfoldable pub equal_lengths : ℕ → List Shard → Bool
equal_lengths n [] = true
equal_lengths n (s ∷ shards) = if eqb (length s) n then equal_lengths n shards else false

-- `mulAddRow(row[j]!, data[j]!, out)` for each j.
unfoldable pub combine : Row → List Shard → Shard → Outcome Shard
combine [] data_shards out = ok out
combine (c ∷ row) [] out = ok out
combine (c ∷ row) (s ∷ data_shards) out = do
  next ← from_field (mul_add_row c s out)
  combine row data_shards next

unfoldable pub shard_length : List Shard → ℕ
shard_length [] = 0
shard_length (s ∷ shards) = length s

unfoldable pub encode : ReedSolomon → List Shard → Outcome (List Shard)
encode rs data_shards =
    let n = shard_length data_shards in
    if eqb (length data_shards) rs.k
    then (if equal_lengths n data_shards
        then try_tabulate
            (λ i. combine (matrix_row rs.encoding_matrix (rs.k + i)) data_shards (replicate n 0))
            rs.m 0
        else fail Failure.unequal_data)
    else fail Failure.wrong_data_count

pub record Present : Type 0 where
  pub indices : List ℕ
  pub shard_len : ℕ

unfoldable pub prepend : ℕ → Present → Present
prepend i p = record { indices = i ∷ p.indices; shard_len = p.shard_len }

-- The length that a shard must have, once one is known.
unfoldable pub agree : ℕ → ℕ → Outcome ℕ
agree len n =
    if eqb len 0 then ok n else (if eqb n len then ok len else fail Failure.unequal_shards)

unfoldable pub find_present : ℕ → ℕ → List (Option Shard) → Outcome Present
find_present i len [] = ok (record { indices = []; shard_len = len })
find_present i len (none ∷ shards) = find_present (suc i) len shards
find_present i len (some s ∷ shards) = do
  n ← agree len (length s)
  rest ← find_present (suc i) n shards
  ok (prepend i rest)

unfoldable pub with_first : Shard → Option (List Shard) → Option (List Shard)
with_first s none = none
with_first s (some rest) = some (s ∷ rest)

-- The first `k` shards, when none of them is missing.
unfoldable pub all_data : ℕ → List (Option Shard) → Option (List Shard)
all_data zero shards = some []
all_data (suc k) [] = none
all_data (suc k) (none ∷ shards) = none
all_data (suc k) (some s ∷ shards) = with_first s (all_data k shards)

abbrev pub slot : List (Option Shard) → ℕ → Option Shard
slot [] i = none
slot (s ∷ shards) zero = s
slot (s ∷ shards) (suc i) = slot shards i

unfoldable pub add_source : ℕ → Option Shard → Shard → Outcome Shard
add_source zero src buf = ok buf
add_source (suc c) none buf = ok buf
add_source (suc c) (some s) buf = from_field (mul_add_row (suc c) s buf)

unfoldable pub rebuild : Row → List ℕ → List (Option Shard) → Shard → Outcome Shard
rebuild [] chosen shards buf = ok buf
rebuild (c ∷ row) [] shards buf = ok buf
rebuild (c ∷ row) (i ∷ chosen) shards buf = do
  next ← add_source c (slot shards i) buf
  rebuild row chosen shards next

unfoldable pub data_shard :
    List Row → List ℕ → List (Option Shard) → ℕ → ℕ → Option Shard → Outcome Shard
data_shard inverse chosen shards len j (some s) = ok s
data_shard inverse chosen shards len j none =
    rebuild (matrix_row inverse j) chosen shards (replicate len 0)

unfoldable pub recover : ReedSolomon → List (Option Shard) → List ℕ → ℕ → Outcome (List Shard)
recover rs shards chosen len = do
  inverse ← invert_matrix (map (matrix_row rs.encoding_matrix) chosen)
  try_tabulate (λ j. data_shard inverse chosen shards len j (slot shards j)) rs.k 0

unfoldable pub recover_unless :
    ReedSolomon → List (Option Shard) → Present → Option (List Shard) → Outcome (List Shard)
recover_unless rs shards present (some whole) = ok whole
recover_unless rs shards present none =
    recover rs shards (take rs.k present.indices) present.shard_len

unfoldable pub reconstruct_from : ReedSolomon → List (Option Shard) → Present → Outcome (List Shard)
reconstruct_from rs shards present =
    if ltb (length present.indices) rs.k
    then fail Failure.too_few_shards
    else recover_unless rs shards present (all_data rs.k shards)

unfoldable pub reconstruct : ReedSolomon → List (Option Shard) → Outcome (List Shard)
reconstruct rs shards =
    if eqb (length shards) (rs.k + rs.m)
    then (do present ← find_present 0 0 shards; reconstruct_from rs shards present)
    else fail Failure.wrong_slot_count
