-- ===== src/Erasure/Split.antt =====
-- splitIntoShards and recombineShards of frontend/src/lib/erasure/reedSolomon.ts. `k` is at least
-- 1, as the constructor of the code has checked.
pub mod RoundTrip
pub mod Widths
use ccn.Prelude.{ℕ, zero, suc, ◌+◌, ◌-◌, ◌*◌, ◌/◌, Bool, true, false, Option, none, some}
use ccn.Prelude.{List, [], ◌∷◌, ◌++◌, length, take, drop, replicate, leb, if◌then◌else◌}
use ccn.Erasure.ReedSolomon.{Shard, shard_length}

pub record Split : Type 0 where
  pub shards : List Shard
  pub original_length : ℕ

-- `buf.subarray(i * shardLen, (i + 1) * shardLen)` for each i.
unfoldable pub pieces : ℕ → ℕ → ℕ → List ℕ → List Shard
pieces zero i n buf = []
pieces (suc k) i n buf = take n (drop (i * n) buf) ∷ pieces k (suc i) n buf

unfoldable pub split_into_shards : List ℕ → ℕ → Split
split_into_shards bytes k =
    let n = (length bytes + (k - 1)) / k in
    record {
      shards = pieces k 0 n (bytes ++ replicate (n * k - length bytes) 0);
      original_length = length bytes;
    }

-- `out.set(src, offset)`, which throws when it would go past the end.
unfoldable pub paste : List ℕ → ℕ → List ℕ → Option (List ℕ)
paste out offset src =
    if leb (offset + length src) (length out)
    then some (take offset out ++ (src ++ drop (offset + length src) out))
    else none

infixl 5 ◌>>=◌
abbrev ◌>>=◌ : Option (List ℕ) → (List ℕ → Option (List ℕ)) → Option (List ℕ)
none >>= f = none
some out >>= f = f out

unfoldable pub paste_all : ℕ → ℕ → List Shard → List ℕ → Option (List ℕ)
paste_all i n [] out = some out
paste_all i n (s ∷ shards) out = do next ← paste out (i * n) s; paste_all (suc i) n shards next

unfoldable pub trimmed : ℕ → Option (List ℕ) → Option (List ℕ)
trimmed n none = none
trimmed n (some out) = some (take n out)

unfoldable pub recombine_shards : List Shard → ℕ → Option (List ℕ)
recombine_shards shards original_length =
    let n = shard_length shards in
    trimmed original_length (paste_all 0 n shards (replicate (n * length shards) 0))
