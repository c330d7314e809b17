-- ===== src/Erasure/Split/Widths.antt =====
-- The shards of a buffer of bytes.
use ccn.Prelude.{ℕ, zero, suc, ◌+◌, ◌-◌, ◌*◌, ◌/◌, ◌≤◌, ◌<◌, ◌≡◌, arith}
use ccn.Prelude.{List, [], ◌∷◌, ◌++◌, length, take, drop, replicate, All, All-append}
use ccn.Erasure.Matrix.Dot.{IsBytes, zeros-IsBytes}
use ccn.Erasure.ReedSolomon.{Shard}
use ccn.Erasure.ReedSolomon.Samples.{IsShard}
use ccn.Erasure.Split.{pieces, split_into_shards}
use ccn.Erasure.Split.RoundTrip.{HasWidth, pieces-HasWidth, length-pieces, length-padded}

All-drop : (P : ℕ → Type 0) (n : ℕ) (xs : List ℕ) → All P xs → All P (drop n xs)
All-drop P zero xs h = h
All-drop P (suc n) [] h = h
All-drop P (suc n) (x ∷ xs) (p, h) = All-drop P n xs h

All-take : (P : ℕ → Type 0) (n : ℕ) (xs : List ℕ) → All P xs → All P (take n xs)
All-take P zero xs h = tt
All-take P (suc n) [] h = h
All-take P (suc n) (x ∷ xs) (p, h) = (p, All-take P n xs h)

pieces-IsBytes : (k i n : ℕ) (buf : List ℕ) → IsBytes buf → All IsBytes (pieces k i n buf)
unfolding pieces
pieces-IsBytes zero i n buf h = tt
pieces-IsBytes (suc k) i n buf h = (
  All-take (λ x. x < 256) n _ (All-drop (λ x. x < 256) _ buf h),
  pieces-IsBytes k (suc i) n buf h,
)

All-both :
    (n : ℕ) (shards : List Shard)
    → All (HasWidth n) shards
    → All IsBytes shards
    → All (IsShard n) shards
All-both n [] h k = tt
All-both n (s ∷ shards) (p, h) (q, k) = ((p, q), All-both n shards h k)

-- Of a sealed file of bytes the data shards are as many as asked for, of bytes, and of one length.
pub split_into_shards-IsShard :
    (sealed : List ℕ) (k : ℕ)
    → 1 ≤ k
    → IsBytes sealed
    → let originals = (split_into_shards sealed k).shards in
      (length originals ≡ k) × ((len : ℕ) × All (IsShard len) originals)
unfolding split_into_shards
split_into_shards-IsShard sealed k h b =
    let n : ℕ = (length sealed + (k - 1)) / k in
    let buf : List ℕ = sealed ++ replicate (n * k - length sealed) 0 in
    let room : length buf ≡ (0 + k) * n = length-padded sealed k h in
    (
      length-pieces k 0 n buf,
      (
        n,
        All-both n (pieces k 0 n buf) (pieces-HasWidth k 0 n buf (omega arith)) (
            pieces-IsBytes k 0 n buf (
              All-append (λ x. x < 256) sealed (replicate (n * k - length sealed) 0) b
                (zeros-IsBytes (n * k - length sealed)))),
      ),
    )
