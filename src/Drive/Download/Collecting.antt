-- ===== src/Drive/Download/Collecting.antt =====
-- When tampered shards make a download fail.
use ccn.Prelude.{ℕ, suc, ◌+◌, ◌≤◌, ◌<◌, ◌≡◌, refl, ap, arith}
use ccn.Prelude.{true, Option, none, some, String, List, [], ◌∷◌, length, eqb, ltb, leb, if_cases}
use ccn.Erasure.Outcome.{Outcome as Thrown, ok as returned, fail as thrown, ◌>>=◌ as ◌then_try◌}
use ccn.Erasure.Matrix.Kernel.{Traces, Traces-bind}
use ccn.Erasure.ReedSolomon.{
  Shard, ReedSolomon, RsConfig, Present, reconstruct, reconstruct_from, find_present, prepend,
  agree,
}
use ccn.Erasure.ReedSolomon.Code.{new_reed_solomon-IsReedSolomon}
use ccn.Erasure.ReedSolomon.Presence.{present_count}
use ccn.Drive.{PeerDriveStore}
use ccn.Drive.Manifest.{ManifestBody, Manifest, FileCrypto, verify_manifest}
use ccn.Drive.Download.{
  Download, finished, failed, ◌>>=◌, of_code, check_hashes, finalize, collect_local, count_local,
  collect_and_finalize, download_file,
}

HasCount : ℕ → Present → Type 0
HasCount n p = length p.indices ≡ n

always : {A : Type 0} (o : Thrown A) → Traces (Unit {0}) (λ a. Unit {0}) o
always (returned a) = tt
always (thrown e) = tt

-- As many indices are found as there are shards, if the lengths agree.
find_present-HasCount :
    (i len : ℕ) (shards : List (Option Shard))
    → Traces (Unit {0}) (HasCount (present_count shards)) (find_present i len shards)
unfolding find_present HasCount prepend
find_present-HasCount i len [] = refl
find_present-HasCount i len (none ∷ shards) = find_present-HasCount (suc i) len shards
find_present-HasCount i len (some s ∷ shards) =
    Traces-bind (Unit {0}) (λ n. Unit {0}) (HasCount (suc (present_count shards))) _ _
      (always (agree len (length s)))
      λ n u.
        Traces-bind (Unit {0}) (HasCount (present_count shards))
          (HasCount (suc (present_count shards))) _ _ (find_present-HasCount (suc i) n shards)
          (λ p h. ap suc h)

abbrev Throws : {A : Type 0} → Thrown A → Type 0
Throws (returned a) = ⊥
Throws (thrown e) = Unit {0}

Throws-bind :
    {A B : Type 0} (P : A → Type 0) (o : Thrown A) (f : A → Thrown B)
    → Traces (Unit {0}) P o
    → ((a : A) → P a → Throws (f a))
    → Throws (◌then_try◌ o f)
Throws-bind P (returned a) f h k = k a h
Throws-bind P (thrown e) f h k = tt

reconstruct-Throws :
    (rs : ReedSolomon) (shards : List (Option Shard))
    → present_count shards < rs.k
    → Throws (reconstruct rs shards)
unfolding reconstruct reconstruct_from HasCount
reconstruct-Throws rs shards h =
    if_cases Throws (eqb (length shards) (rs.k + rs.m)) _ _
      (λ e.
        Throws-bind (HasCount (present_count shards)) _ _ (find_present-HasCount 0 0 shards)
          λ p c. let few : ltb (length p.indices) rs.k ≡ true = ground arith in rw few tt)
      (λ e. tt)

-- A download that ends in an error.
abbrev pub Fails : {A : Type 0} → Download A → Type 0
Fails (finished a) = ⊥
Fails (failed e) = Unit {0}

of_code-Fails :
    {A B : Type 0} (o : Thrown A) (f : A → Download B) → Throws o → Fails (of_code o >>= f)
of_code-Fails (returned a) f h = absurd h
of_code-Fails (thrown e) f h = tt

module _ {FileKey Wrapped : Type 0} (c : FileCrypto FileKey Wrapped) where
  pub finalize-Fails :
      (manifest : Manifest Wrapped) (collected : List (Option Shard))
      → 1 ≤ manifest.body.k
      → 1 ≤ manifest.body.m
      → manifest.body.k + manifest.body.m ≤ 256
      → present_count (check_hashes c manifest.body.shards 0 collected) < manifest.body.k
      → Fails (finalize c manifest collected)
  unfolding finalize
  finalize-Fails manifest collected k_pos m_pos few tampered =
      let config : RsConfig = record { k = manifest.body.k; m = manifest.body.m } in
      let (rs, built, is) = new_reed_solomon-IsReedSolomon config k_pos m_pos few in
      rw built (
        of_code-Fails (reconstruct rs (check_hashes c manifest.body.shards 0 collected)) _ (
          reconstruct-Throws rs (check_hashes c manifest.body.shards 0 collected)
            (omega (arith, is.same_k))))

-- Let the store of the peer have at least k shards of a file, of which fewer than k pass the check
-- of hashes. Then the download fails, whatever the DHT and the other peers would have given for the
-- tampered shards: they are not asked.
pub download_file-Fails :
    {FileKey Wrapped : Type 0} (c : FileCrypto FileKey Wrapped) (text_of : ℕ → String)
    (dht_fetch broadcast_fetch : String → ℕ → Option Shard)
    (store : PeerDriveStore (ManifestBody Wrapped)) (manifest : Manifest Wrapped)
    → 1 ≤ manifest.body.k
    → 1 ≤ manifest.body.m
    → manifest.body.k + manifest.body.m ≤ 256
    → (let slots =
          collect_local c text_of dht_fetch broadcast_fetch store manifest.file_id
            (manifest.body.k + manifest.body.m)
            0 in
        (manifest.body.k ≤ count_local c text_of dht_fetch broadcast_fetch slots)
        × (present_count (check_hashes c manifest.body.shards 0 slots) < manifest.body.k))
    → Fails (download_file c text_of dht_fetch broadcast_fetch store manifest)
unfolding download_file collect_and_finalize
download_file-Fails c text_of dht_fetch broadcast_fetch store manifest k_pos m_pos few
      (have, tampered) =
    if_cases Fails (verify_manifest c manifest) _ _
      (λ e.
        let enough : leb manifest.body.k (
              count_local c text_of dht_fetch broadcast_fetch (
                collect_local c text_of dht_fetch broadcast_fetch store manifest.file_id
                  (manifest.body.k + manifest.body.m) 0))
            ≡ true =
          ground arith in
        rw enough (finalize-Fails c manifest _ k_pos m_pos few tampered))
      (λ e. tt)
