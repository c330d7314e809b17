-- ===== src/Drive.antt =====
-- frontend/src/lib/drive/peerStore.ts: the shards and manifests that a peer holds.
pub mod Manifest
pub mod Download
pub mod Upload
pub mod Holder
pub mod Tests
use Prim.Native.String.{◌++◌ as concat}
use ccn.Prelude.{
  string_key, ℕ, ◌+◌, ◌≡◌, ◌≢◌, Bool, true, Option, some, String, List, [], ◌∷◌, if◌then◌else◌,
  ◌==◌, JsMap, map_get, map_set, map_has, map_delete, length, All, if_cases, map_get-set_self,
  map_get-set_ne,
}

pub record StoredShard : Type 0 where
  pub file_id : String
  pub index : ℕ
  pub bytes : List ℕ
  pub hash : String
  pub received_at : ℕ

-- Of a manifest the store reads the identifier of its file; the rest is `M`.
pub record SignedManifest (M : Type 0) : Type 0 where
  pub file_id : String
  pub body : M

pub record PeerDriveStore (M : Type 0) : Type 0 where
  pub shards : JsMap String StoredShard
  pub manifests : JsMap String (SignedManifest M)

abbrev pub values : {V : Type 0} → JsMap String V → List V
values [] = []
values ((k, v) ∷ m) = v ∷ values m

abbrev pub held_in : String → JsMap String StoredShard → List StoredShard
held_in file_id [] = []
held_in file_id ((k, s) ∷ m) =
    if s.file_id == file_id then s ∷ held_in file_id m else held_in file_id m

abbrev pub bytes_in : JsMap String StoredShard → ℕ
bytes_in [] = 0
bytes_in ((k, s) ∷ m) = length s.bytes + bytes_in m

pub record Stats : Type 0 where
  pub shards : ℕ
  pub manifests : ℕ
  pub bytes : ℕ

-- `text_of` is the text of a number in a template.
module _ (M : Type 0) (text_of : ℕ → String) where
  abbrev pub shard_key : String → ℕ → String
  shard_key file_id index = concat file_id (concat ":" (text_of index))

  abbrev pub put_shard : StoredShard → PeerDriveStore M → PeerDriveStore M
  put_shard shard s = record s {
    shards = map_set (shard_key shard.file_id shard.index) shard s.shards;
  }

  abbrev pub get_shard : String → ℕ → PeerDriveStore M → Option StoredShard
  get_shard file_id index s = map_get (shard_key file_id index) s.shards

  abbrev pub remove_shard : String → ℕ → PeerDriveStore M → PeerDriveStore M × Bool
  remove_shard file_id index s = (
    record s { shards = map_delete (shard_key file_id index) s.shards },
    map_has (shard_key file_id index) s.shards,
  )

  abbrev pub put_manifest : SignedManifest M → PeerDriveStore M → PeerDriveStore M
  put_manifest manifest s = record s { manifests = map_set manifest.file_id manifest s.manifests }

  abbrev pub get_manifest : String → PeerDriveStore M → Option (SignedManifest M)
  get_manifest file_id s = map_get file_id s.manifests

  abbrev pub all_manifests : PeerDriveStore M → List (SignedManifest M)
  all_manifests s = values s.manifests

  abbrev pub remove_manifest : String → PeerDriveStore M → PeerDriveStore M × Bool
  remove_manifest file_id s =
      (record s { manifests = map_delete file_id s.manifests }, map_has file_id s.manifests)

  abbrev pub shards_held_for_file : String → PeerDriveStore M → List StoredShard
  shards_held_for_file file_id s = held_in file_id s.shards

  abbrev pub stats : PeerDriveStore M → Stats
  stats s = record {
    shards = length s.shards;
    manifests = length s.manifests;
    bytes = bytes_in s.shards;
  }

  -- A shard that was put is found under its file and index, and one under another key is as it was.
  get_shard-put_shard :
      (shard : StoredShard) (s : PeerDriveStore M)
      → (get_shard shard.file_id shard.index (put_shard shard s) ≡ some shard)
        × ((file_id : String) (index : ℕ)
            → shard_key shard.file_id shard.index ≢ shard_key file_id index
            → get_shard file_id index (put_shard shard s) ≡ get_shard file_id index s)
  get_shard-put_shard shard s = (
    map_get-set_self (shard_key shard.file_id shard.index) shard s.shards,
    λ file_id index h.
        map_get-set_ne (shard_key shard.file_id shard.index) (shard_key file_id index) shard
          s.shards h,
  )

-- The shards of a file are all of that file.
held_in-All :
    (file_id : String) (m : JsMap String StoredShard)
    → All (λ s. (s.file_id == file_id) ≡ true) (held_in file_id m)
held_in-All file_id [] = tt
held_in-All file_id ((k, s) ∷ m) =
    if_cases (All (λ s. (s.file_id == file_id) ≡ true)) (s.file_id == file_id) _ _
      (λ e. (e, held_in-All file_id m)) (λ e. held_in-All file_id m)
