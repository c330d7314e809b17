-- ===== src/Drive/Upload.antt =====
-- uploadFile and allocateShards of frontend/src/lib/drive/driveClient.ts. What a holder answers to
-- an offer and to a shard is a parameter, `none` a timeout; the shards are distributed at the same
-- time, each on its own, and stand here in their order.
pub mod Described
use Prim.Native.Nat.{◌%◌}
use ccn.Prelude.{
  ℕ, zero, suc, ◌+◌, Bool, true, false, Option, none, some, String, List, [], ◌∷◌, ◌++◌, length,
  replicate, get_elem?, ltb, if◌then◌else◌, ◌==◌, string_key,
}
use ccn.Erasure.Outcome.{Outcome, ok, fail, ◌>>=◌, Failure}
use ccn.Erasure.ReedSolomon.{Shard, ReedSolomon, new_reed_solomon, encode, shard_length}
use ccn.Erasure.Split.{split_into_shards}
use ccn.Drive.{PeerDriveStore, put_shard, put_manifest}
use ccn.Drive.Manifest.{ShardDescriptor, ManifestBody, Manifest, FileCrypto, Sealed, sign_manifest}

-- `peerIds[i % peerIds.length]`
abbrev peer_at : List String → ℕ → String
peer_at [] i = ""
peer_at (p ∷ peers) zero = p
peer_at (p ∷ peers) (suc i) = peer_at peers i

unfoldable pub round_robin : List String → ℕ → ℕ → List String
round_robin peers zero i = []
round_robin peers (suc n) i = peer_at peers (i % length peers) ∷ round_robin peers n (suc i)

unfoldable pub allocate_shards : ℕ → List String → List String
allocate_shards total [] = replicate total ""
allocate_shards total (p ∷ peers) = round_robin (p ∷ peers) total 0

-- The data shards and the parity shards of a sealed file.
unfoldable pub all_shards : ℕ → ℕ → List ℕ → Outcome (List Shard)
all_shards k m sealed =
    let originals = (split_into_shards sealed k).shards in
    do
      rs ← new_reed_solomon (record { k = k; m = m })
      parity ← encode rs originals
      ok (originals ++ parity)

pub record File : Type 0 where
  pub name : String
  pub content_type : Option String
  pub bytes : List ℕ

-- What the distribution has done so far. `successes` are the tasks that were fulfilled.
pub record Progress (Wrapped : Type 0) : Type 0 where
  pub store : PeerDriveStore (ManifestBody Wrapped)
  pub accepted : ℕ
  pub stored : ℕ
  pub successes : ℕ
  pub published : List ℕ

pub record Uploaded (Wrapped : Type 0) : Type 0 where
  pub manifest : Manifest Wrapped
  pub store : PeerDriveStore (ManifestBody Wrapped)
  pub broadcasts : List (Manifest Wrapped)
  pub published : List ℕ

pub data UploadResult (Wrapped : Type 0) : Type 0 where
  uploaded : Uploaded Wrapped → UploadResult Wrapped
  code_failed : Failure → UploadResult Wrapped
  too_few_stored : ℕ → UploadResult Wrapped

module _ {FileKey Wrapped : Type 0} (c : FileCrypto FileKey Wrapped) (text_of : ℕ → String)
    (offer_ack store_ack : String → ℕ → Option Bool) (clock : ℕ → ℕ) (self_peer_id : String)
    (identity_key file_id : String) where
  unfoldable pub describe : ℕ → List Shard → List ShardDescriptor
  describe i [] = []
  describe i (s ∷ shards) =
      record { index = i; size = length s; hash = c.hash s } ∷ describe (suc i) shards

  unfoldable pub store_self : ℕ → Shard → Progress Wrapped → Progress Wrapped
  store_self i s p = record {
    store =
        put_shard (ManifestBody Wrapped) text_of
          (record {
            file_id = file_id;
            index = i;
            bytes = s;
            hash = c.hash s;
            received_at = clock i;
          })
          p.store;
    accepted = suc p.accepted;
    stored = suc p.stored;
    successes = suc p.successes;
    published = p.published ++ (i ∷ []);
  }

  unfoldable pub count_store : ℕ → Option Bool → Progress Wrapped → Progress Wrapped
  count_store i (some true) p = record p {
    stored = suc p.stored;
    successes = suc p.successes;
    published = p.published ++ (i ∷ []);
  }
  count_store i (some false) p = p
  count_store i none p = p

  unfoldable pub offered : String → ℕ → Option Bool → Progress Wrapped → Progress Wrapped
  offered holder i (some true) p =
      count_store i (store_ack holder i) (record p { accepted = suc p.accepted })
  offered holder i (some false) p = p
  offered holder i none p = p

  unfoldable pub distribute_one : String → ℕ → Shard → Progress Wrapped → Progress Wrapped
  distribute_one holder i s p =
      if holder == self_peer_id then store_self i s p else offered holder i (offer_ack holder i) p

  unfoldable pub distribute : List String → ℕ → List Shard → Progress Wrapped → Progress Wrapped
  distribute holders i [] p = p
  distribute [] i (s ∷ shards) p = p
  distribute (h ∷ holders) i (s ∷ shards) p =
      distribute holders (suc i) shards (distribute_one h i s p)

  unfoldable pub manifest_of : FileKey → File → Sealed → ℕ → ℕ → List Shard → Manifest Wrapped
  manifest_of key file sealed k m shards = sign_manifest c (record {
    file_id = file_id;
    body = record {
      name = file.name;
      size = length file.bytes;
      sealed_size = length sealed.ciphertext;
      padded_shard_size = shard_length shards;
      content_type = file.content_type;
      k = k;
      m = m;
      iv = c.to_base64 sealed.iv;
      file_key_wrapped = c.wrap_file_key key;
      shards = describe 0 shards;
      uploader_sign_pub_key = identity_key;
      created_at = clock (k + m);
      signature = "";
    };
  })

  unfoldable pub publish_file :
      FileKey → File → Sealed → ℕ → ℕ → List Shard → Progress Wrapped → UploadResult Wrapped
  publish_file key file sealed k m shards p =
      let manifest = manifest_of key file sealed k m shards in
      if ltb p.successes k
      then UploadResult.too_few_stored p.successes
      else UploadResult.uploaded (record {
        manifest = manifest;
        store = put_manifest (ManifestBody Wrapped) text_of manifest p.store;
        broadcasts = manifest ∷ [];
        published = p.published;
      })

  unfoldable pub upload_shards :
      FileKey
      → File
      → Sealed
      → ℕ
      → ℕ
      → List String
      → PeerDriveStore (ManifestBody Wrapped)
      → Outcome (List Shard)
      → UploadResult Wrapped
  upload_shards key file sealed k m peers store (fail e) = UploadResult.code_failed e
  upload_shards key file sealed k m peers store (ok shards) =
      publish_file key file sealed k m shards (
        distribute (allocate_shards (k + m) (self_peer_id ∷ peers)) 0 shards
          (record { store = store; accepted = 0; stored = 0; successes = 0; published = [] }))

  unfoldable pub upload_file :
      FileKey
      → File
      → ℕ
      → ℕ
      → List String
      → PeerDriveStore (ManifestBody Wrapped)
      → UploadResult Wrapped
  upload_file key file k m peers store =
      let sealed = c.seal_file key file.bytes in
      upload_shards key file sealed k m peers store (all_shards k m sealed.ciphertext)
