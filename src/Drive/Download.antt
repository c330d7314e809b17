-- ===== src/Drive/Download.antt =====
-- downloadFile and finalize of frontend/src/lib/drive/driveClient.ts. What the DHT and the other
-- peers answer for a shard is a parameter; fetches run at the same time and fill different slots.
pub mod Intact
pub mod Collecting
use ccn.Prelude.{
  ℕ, zero, suc, ◌+◌, Bool, true, false, Option, none, some, String, List, [], ◌∷◌, length,
  replicate, get_elem?, ltb, leb, eqb, if◌then◌else◌, ◌==◌, string_key,
}
use ccn.Erasure.Outcome.{Outcome as Thrown, ok as returned, fail as thrown, Failure as CodeFailure}
use ccn.Erasure.ReedSolomon.{Shard, new_reed_solomon, reconstruct}
use ccn.Erasure.Split.{recombine_shards}
use ccn.Drive.{PeerDriveStore, StoredShard, get_shard}
use ccn.Drive.Manifest.{ShardDescriptor, ManifestBody, Manifest, FileCrypto, verify_manifest}

-- The errors of a download.
pub data DownloadFailure : Type 0 where
  unverified : DownloadFailure
  too_few_available : ℕ → DownloadFailure
  code_failure : CodeFailure → DownloadFailure
  past_end bad_key bad_iv undecipherable wrong_size : DownloadFailure

pub data Download (A : Type 0) : Type 0 where
  finished : A → Download A
  failed : DownloadFailure → Download A

infixl 5 ◌>>=◌
abbrev pub ◌>>=◌ : {A B : Type 0} → Download A → (A → Download B) → Download B
finished a >>= f = f a
failed e >>= f = failed e

abbrev pub or_fail : {A : Type 0} → DownloadFailure → Option A → Download A
or_fail e none = failed e
or_fail e (some a) = finished a

abbrev pub of_code : {A : Type 0} → Thrown A → Download A
of_code (returned a) = finished a
of_code (thrown e) = failed (DownloadFailure.code_failure e)

pub record Downloaded : Type 0 where
  pub bytes : List ℕ
  pub name : String
  pub content_type : Option String

pub record Collection : Type 0 where
  pub collected : List (Option Shard)
  pub collected_count : ℕ

abbrev pub put_at : List (Option Shard) → ℕ → Shard → List (Option Shard)
put_at [] i s = []
put_at (o ∷ slots) zero s = some s ∷ slots
put_at (o ∷ slots) (suc i) s = o ∷ put_at slots i s

-- `manifest.shards[i]?.hashB64`
abbrev pub expected_hash : List ShardDescriptor → ℕ → Option String
expected_hash [] i = none
expected_hash (d ∷ shards) zero = some d.hash
expected_hash (d ∷ shards) (suc i) = expected_hash shards i

abbrev pub same_hash : Option String → String → Bool
same_hash none got = false
same_hash (some expected) got = expected == got

-- The indices to fetch: missing slots in order, as long as the shards there and those picked are
-- fewer than k.
unfoldable pub pick : ℕ → ℕ → (ℕ → Bool) → List (Option Shard) → ℕ → List ℕ
pick k have skip [] i = []
pick k have skip (some s ∷ slots) i = pick k have skip slots (suc i)
pick k have skip (none ∷ slots) i =
    if ltb have k
    then (if skip i
        then pick k have skip slots (suc i)
        else i ∷ pick k (suc have) skip slots (suc i))
    else []

abbrev pub includes : List ℕ → ℕ → Bool
includes [] i = false
includes (x ∷ xs) i = if eqb x i then true else includes xs i

module _ {FileKey Wrapped : Type 0} (c : FileCrypto FileKey Wrapped) where
  -- A slot after the check of its hash; a tampered shard is dropped.
  unfoldable pub check_slot : List ShardDescriptor → ℕ → Option Shard → Option Shard
  check_slot shards i none = none
  check_slot shards i (some s) =
      if same_hash (expected_hash shards i) (c.hash s) then some s else none

  unfoldable pub check_hashes : List ShardDescriptor → ℕ → List (Option Shard) → List (Option Shard)
  check_hashes shards i [] = []
  check_hashes shards i (o ∷ slots) = check_slot shards i o ∷ check_hashes shards (suc i) slots

  unfoldable pub check_size : Manifest Wrapped → List ℕ → Download Downloaded
  check_size manifest plaintext =
      if eqb (length plaintext) manifest.body.size
      then finished (record {
        bytes = plaintext;
        name = manifest.body.name;
        content_type = manifest.body.content_type;
      })
      else failed DownloadFailure.wrong_size

  -- What follows the reconstruction.
  unfoldable pub open_sealed : Manifest Wrapped → List ℕ → Download Downloaded
  open_sealed manifest sealed = do
    key ← or_fail DownloadFailure.bad_key (c.unwrap_file_key manifest.body.file_key_wrapped)
    iv ← or_fail DownloadFailure.bad_iv (c.of_base64 manifest.body.iv)
    plaintext ← or_fail DownloadFailure.undecipherable (c.open_file key iv sealed)
    check_size manifest plaintext

  unfoldable pub finalize : Manifest Wrapped → List (Option Shard) → Download Downloaded
  finalize manifest collected = do
    rs ← of_code (new_reed_solomon (record { k = manifest.body.k; m = manifest.body.m }))
    recovered ← of_code (reconstruct rs (check_hashes manifest.body.shards 0 collected))
    sealed ← or_fail DownloadFailure.past_end (recombine_shards recovered manifest.body.sealed_size)
    open_sealed manifest sealed

module _ {FileKey Wrapped : Type 0} (c : FileCrypto FileKey Wrapped) (text_of : ℕ → String)
    (dht_fetch : String → ℕ → Option Shard) (broadcast_fetch : String → ℕ → Option Shard) where
  -- The shards in the store, for `n` slots from `i` on.
  unfoldable pub collect_local :
      PeerDriveStore (ManifestBody Wrapped) → String → ℕ → ℕ → List (Option Shard)
  collect_local store file_id zero i = []
  collect_local store file_id (suc n) i =
      local (get_shard (ManifestBody Wrapped) text_of file_id i store)
      ∷ collect_local store file_id n (suc i)
    where
      local : Option StoredShard → Option Shard
      local none = none
      local (some shard) = some shard.bytes

  -- `collectedCount` after the loop over the slots.
  unfoldable pub count_local : List (Option Shard) → ℕ
  count_local [] = 0
  count_local (none ∷ slots) = count_local slots
  count_local (some s ∷ slots) = suc (count_local slots)

  abbrev pub fill_slot : ℕ → Option Shard → Collection → Collection
  fill_slot i none l = l
  fill_slot i (some s) l = record {
    collected = put_at l.collected i s;
    collected_count = suc l.collected_count;
  }

  -- The DHT first; a lookup that finds nothing or fails is followed by the broadcast.
  abbrev pub fetched : Option Shard → Option Shard → Option Shard
  fetched (some s) other = some s
  fetched none other = other

  unfoldable pub fetch_one : String → ℕ → Collection → Collection
  fetch_one file_id i l = fill_slot i (fetched (dht_fetch file_id i) (broadcast_fetch file_id i)) l

  unfoldable pub fetch_all : String → List ℕ → Collection → Collection
  fetch_all file_id [] l = l
  fetch_all file_id (i ∷ indices) l = fetch_all file_id indices (fetch_one file_id i l)

  -- The second round, for slots that were not asked for in the first.
  unfoldable pub fetch_more : String → ℕ → List ℕ → Collection → Collection
  fetch_more file_id k needed l =
      if ltb l.collected_count k
      then fetch_all file_id (pick k l.collected_count (includes needed) l.collected 0) l
      else l

  unfoldable pub fetch_missing : String → ℕ → Collection → Collection
  fetch_missing file_id k l =
      let needed = pick k l.collected_count (λ i. false) l.collected 0 in
      fetch_more file_id k needed (fetch_all file_id needed l)

  unfoldable pub finalize_if_enough : Manifest Wrapped → Collection → Download Downloaded
  finalize_if_enough manifest l =
      if ltb l.collected_count manifest.body.k
      then failed (DownloadFailure.too_few_available l.collected_count)
      else finalize c manifest l.collected

  unfoldable pub collect_and_finalize : Manifest Wrapped → Collection → Download Downloaded
  collect_and_finalize manifest l =
      if leb manifest.body.k l.collected_count
      then finalize c manifest l.collected
      else finalize_if_enough manifest (fetch_missing manifest.file_id manifest.body.k l)

  unfoldable pub download_file :
      PeerDriveStore (ManifestBody Wrapped) → Manifest Wrapped → Download Downloaded
  download_file store manifest =
      let slots = collect_local store manifest.file_id (manifest.body.k + manifest.body.m) 0 in
      if verify_manifest c manifest
      then collect_and_finalize manifest
          (record { collected = slots; collected_count = count_local slots })
      else failed DownloadFailure.unverified
