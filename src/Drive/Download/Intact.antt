-- ===== src/Drive/Download/Intact.antt =====
-- Tampered shards do not change what a download gives.
use ccn.Prelude.{ℕ, suc, ◌+◌, ◌≤◌, ◌<◌, ◌≡◌, refl, ap, sym, subst, ◌∙◌, arith, ◌⊎◌, inl, inr}
use ccn.Prelude.{true, Option, none, some, String, List, [], ◌∷◌, ◌++◌, length}
use ccn.Prelude.{All, if_cases}
use text.Mathlib.TextEquality.{eq_iff}
use ccn.Erasure.Outcome.{ok}
use ccn.Erasure.Matrix.{matrix_row}
use ccn.Erasure.Matrix.Dot.{IsBytes}
use ccn.Erasure.ReedSolomon.{Shard, RsConfig, reconstruct}
use ccn.Erasure.ReedSolomon.Presence.{present_count}
use ccn.Erasure.ReedSolomon.Loss.{Loses, reconstruct-encode, encode_returns}
use ccn.Erasure.Split.{split_into_shards}
use ccn.Erasure.Split.RoundTrip.{split_into_shards-recombine_shards}
use ccn.Erasure.Split.Widths.{split_into_shards-IsShard}
use ccn.Drive.Manifest.{ShardDescriptor, Manifest, FileCrypto}
use ccn.Drive.Upload.{all_shards}
use ccn.Drive.Download.{expected_hash, same_hash, check_slot, check_hashes, finalize, open_sealed}

-- The manifest has the hashes of the shards.
abbrev pub Describes : (List ℕ → String) → List ShardDescriptor → ℕ → List Shard → Type 0
Describes hash shards i full =
    (j : ℕ) → j < length full → expected_hash shards (i + j) ≡ some (hash (matrix_row full j))

-- No other bytes have the hash of a shard.
abbrev pub IsCollisionFree : (List ℕ → String) → List Shard → Type 0
IsCollisionFree hash full = All (λ s. (t : Shard) → hash t ≡ hash s → t ≡ s) full

ok-injective {ℓ} : {A : Type ℓ} (a b : A) → ok a ≡ ok b → a ≡ b
ok-injective a b h = cc

original_size :
    (sealed : List ℕ) (k : ℕ) → length sealed ≡ (split_into_shards sealed k).original_length
unfolding split_into_shards
original_size sealed k = refl

module _ {FileKey Wrapped : Type 0} (c : FileCrypto FileKey Wrapped) where
  check_slot-original :
      (shards : List ShardDescriptor) (i : ℕ) (original : Shard) (o : Option Shard)
      → expected_hash shards i ≡ some (c.hash original)
      → ((t : Shard) → c.hash t ≡ c.hash original → t ≡ original)
      → (check_slot c shards i o ≡ none) ⊎ (check_slot c shards i o ≡ some original)
  unfolding check_slot
  check_slot-original shards i original none e h = inl refl
  check_slot-original shards i original (some s) e h =
      if_cases (λ (o : Option Shard). (o ≡ none) ⊎ (o ≡ some original))
        (same_hash (expected_hash shards i) (c.hash s)) _ _ (λ t. inr (ap some (h s (matches t))))
        (λ t. inl refl)
    where
      matches : same_hash (expected_hash shards i) (c.hash s) ≡ true → c.hash s ≡ c.hash original
      matches t = sym ((eq_iff (c.hash original) (c.hash s)).0 (rw e at t))

  check_hashes-Loses :
      (shards : List ShardDescriptor) (i : ℕ) (full : List Shard) (collected : List (Option Shard))
      → length collected ≡ length full
      → Describes c.hash shards i full
      → IsCollisionFree c.hash full
      → Loses full (check_hashes c shards i collected)
  unfolding check_hashes
  check_hashes-Loses shards i [] [] e d h = tt
  check_hashes-Loses shards i [] (o ∷ collected) e d h = absurd (omega arith)
  check_hashes-Loses shards i (s ∷ full) [] e d h = absurd (omega arith)
  check_hashes-Loses shards i (s ∷ full) (o ∷ collected) e d (q, h) = (
    check_slot-original shards i s o
        (ap (expected_hash shards) {x = i} {y = i + 0} (omega arith) ∙ d 0 (omega arith)) q,
    check_hashes-Loses shards (suc i) full collected (omega arith)
        (λ j l.
          ap (expected_hash shards) {x = suc i + j} {y = i + suc j} (omega arith)
          ∙ d (suc j) (omega arith))
        h,
  )

-- Let a file be sealed to some bytes and split and encoded into its shards, and let the manifest
-- have their number, their hashes and the sealed size. If no other bytes have the hash of one of
-- them, then whatever was collected for the slots, from whomever, finalize opens exactly the sealed
-- bytes, provided that at least k of what was collected pass the check of hashes.
pub finalize_intact :
    {FileKey Wrapped : Type 0} (c : FileCrypto FileKey Wrapped) (manifest : Manifest Wrapped)
    (sealed : List ℕ) (full : List Shard) (collected : List (Option Shard))
    → 1 ≤ manifest.body.k
    → 1 ≤ manifest.body.m
    → manifest.body.k + manifest.body.m ≤ 256
    → IsBytes sealed
    → all_shards manifest.body.k manifest.body.m sealed ≡ ok full
    → manifest.body.sealed_size ≡ length sealed
    → Describes c.hash manifest.body.shards 0 full
    → IsCollisionFree c.hash full
    → length collected ≡ length full
    → manifest.body.k ≤ present_count (check_hashes c manifest.body.shards 0 collected)
    → finalize c manifest collected ≡ open_sealed c manifest sealed
unfolding finalize all_shards
finalize_intact c manifest sealed full collected k_pos m_pos few bytes made size describes free
      width enough =
    let k : ℕ = manifest.body.k in
    let m : ℕ = manifest.body.m in
    let originals : List Shard = (split_into_shards sealed k).shards in
    let config : RsConfig = record { k = k; m = m } in
    let (k_originals, (len, widths)) = split_into_shards-IsShard sealed k k_pos bytes in
    let (rs, built, (parity, coded, _, _)) =
      encode_returns config len originals k_pos m_pos few k_originals widths in
    let same : originals ++ parity ≡ full = ok-injective _ _ (rw (built, coded) at made) in
    let loses : Loses (originals ++ parity) (check_hashes c manifest.body.shards 0 collected) =
      subst (λ (f : List Shard). Loses f (check_hashes c manifest.body.shards 0 collected))
        (sym same)
        (check_hashes-Loses c manifest.body.shards 0 full collected width describes free) in
    let recovered : reconstruct rs (check_hashes c manifest.body.shards 0 collected)
        ≡ ok originals =
      reconstruct-encode config rs len originals parity
        (check_hashes c manifest.body.shards 0 collected) k_pos m_pos few built k_originals widths
        coded loses enough in
    let whole = (split_into_shards-recombine_shards sealed k k_pos).1 in
    rw (built, recovered, size, original_size sealed k, whole) refl
