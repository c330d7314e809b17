-- ===== src/Drive/Upload/Described.antt =====
-- A file that was uploaded can be downloaded.
use ccn.Prelude.{ℕ, zero, suc, ◌+◌, ◌≤◌, ◌<◌, ◌≡◌, refl, ap, subst, ◌∙◌, arith, Bool, true}
use ccn.Prelude.{Option, some, String, List, [], ◌∷◌, length, ltb, eqb, eqb_iff, if_cases}
use ccn.Erasure.Outcome.{ok}
use ccn.Erasure.Matrix.{matrix_row}
use ccn.Erasure.Matrix.Dot.{IsBytes}
use ccn.Erasure.ReedSolomon.{Shard}
use ccn.Erasure.ReedSolomon.Presence.{present_count}
use ccn.Drive.{PeerDriveStore}
use ccn.Drive.Manifest.{ManifestBody, Manifest, FileCrypto, Sealed, sign_manifest}
use ccn.Drive.Download.{check_size, finished, check_hashes, finalize, open_sealed, expected_hash}
use ccn.Drive.Download.Intact.{IsCollisionFree, finalize_intact}
use ccn.Drive.Upload.{
  File, Progress, Uploaded, UploadResult, all_shards, describe, manifest_of, publish_file,
  upload_shards, upload_file,
}

module _ {FileKey Wrapped : Type 0} (c : FileCrypto FileKey Wrapped) (text_of : ℕ → String)
    (offer_ack store_ack : String → ℕ → Option Bool) (clock : ℕ → ℕ) (self_peer_id : String)
    (identity_key file_id : String) where
  describe-Describes :
      (i : ℕ) (full : List Shard) (j : ℕ)
      → j < length full
      → expected_hash
          (describe c text_of offer_ack store_ack clock self_peer_id identity_key file_id i full)
          j
        ≡ some (c.hash (matrix_row full j))
  unfolding describe
  describe-Describes i [] j l = absurd (omega arith)
  describe-Describes i (s ∷ full) zero l = refl
  describe-Describes i (s ∷ full) (suc j) l = describe-Describes (suc i) full j (omega arith)

  module _ (key : FileKey) (file : File) (k m : ℕ) (peers : List String)
      (store : PeerDriveStore (ManifestBody Wrapped)) where
    abbrev sealed : Sealed
    sealed = c.seal_file key file.bytes

    abbrev manifest : List Shard → Manifest Wrapped
    manifest full =
        manifest_of c text_of offer_ack store_ack clock self_peer_id identity_key file_id key file
          sealed k m full

    abbrev IsManifest : List Shard → UploadResult Wrapped → Type 0
    IsManifest full (UploadResult.uploaded u) = u.manifest ≡ manifest full
    IsManifest full (UploadResult.code_failed e) = Unit {0}
    IsManifest full (UploadResult.too_few_stored n) = Unit {0}

    publish_file-IsManifest :
        (full : List Shard) (p : Progress Wrapped)
        → IsManifest full (
            publish_file c text_of offer_ack store_ack clock self_peer_id identity_key file_id key
              file sealed k m full p)
    unfolding publish_file
    publish_file-IsManifest full p =
        if_cases (IsManifest full) (ltb p.successes k) _ _ (λ e. tt) (λ e. refl)

    upload_shards-IsManifest :
        (full : List Shard)
        → IsManifest full (
            upload_shards c text_of offer_ack store_ack clock self_peer_id identity_key file_id key
              file sealed k m peers store
              (ok full))
    unfolding upload_shards
    upload_shards-IsManifest full = publish_file-IsManifest full _

    upload_file-IsManifest :
        (full : List Shard)
        → all_shards k m sealed.ciphertext ≡ ok full
        → IsManifest full (
            upload_file c text_of offer_ack store_ack clock self_peer_id identity_key file_id key
              file k m peers store)
    unfolding upload_file
    upload_file-IsManifest full e = rw e (upload_shards-IsManifest full)

    -- What was sealed opens to the file.
    open_sealed-file :
        (full : List Shard)
        → c.unwrap_file_key (c.wrap_file_key key) ≡ some key
        → c.of_base64 (c.to_base64 sealed.iv) ≡ some sealed.iv
        → c.open_file key sealed.iv sealed.ciphertext ≡ some file.bytes
        → open_sealed c (manifest full) sealed.ciphertext
          ≡ finished
              (record { bytes = file.bytes; name = file.name; content_type = file.content_type })
    unfolding open_sealed check_size manifest_of sign_manifest
    open_sealed-file full unwraps decodes opens =
        let same : eqb (length file.bytes) (length file.bytes) ≡ true = (eqb_iff _ _).1 refl in
        rw (unwraps, decodes, opens, same) refl

    finalize-manifest :
        (full : List Shard) (collected : List (Option Shard))
        → 1 ≤ k
        → 1 ≤ m
        → k + m ≤ 256
        → IsBytes sealed.ciphertext
        → all_shards k m sealed.ciphertext ≡ ok full
        → IsCollisionFree c.hash full
        → length collected ≡ length full
        → k ≤ present_count (check_hashes c (manifest full).body.shards 0 collected)
        → finalize c (manifest full) collected ≡ open_sealed c (manifest full) sealed.ciphertext
    unfolding manifest_of sign_manifest
    finalize-manifest full collected k_pos m_pos few bytes made free width enough =
        finalize_intact c (manifest full) sealed.ciphertext full collected k_pos m_pos few bytes
          made refl
          (λ j l. let same : 0 + j ≡ j = omega arith in rw same (describe-Describes 0 full j l))
          free width enough

-- Let an upload of a file with k data and m parity shards succeed, and let later any bytes at all be
-- collected for its slots, of which at least k pass the check of hashes. If the wrapped key unwraps,
-- base64 and the sealing can be undone, and no other bytes have the hash of one of the shards, then
-- finalize with the manifest of the upload returns the file, with its name and type.
pub upload_file-finalize :
    {FileKey Wrapped : Type 0} (c : FileCrypto FileKey Wrapped) (text_of : ℕ → String)
    (offer_ack store_ack : String → ℕ → Option Bool) (clock : ℕ → ℕ)
    (self_peer_id identity_key file_id : String) (key : FileKey) (file : File) (k m : ℕ)
    (peers : List String) (store : PeerDriveStore (ManifestBody Wrapped)) (u : Uploaded Wrapped)
    (full : List Shard) (collected : List (Option Shard))
    → 1 ≤ k
    → 1 ≤ m
    → k + m ≤ 256
    → IsBytes (c.seal_file key file.bytes).ciphertext
    → upload_file c text_of offer_ack store_ack clock self_peer_id identity_key file_id key file k m
        peers store
      ≡ UploadResult.uploaded u
    → all_shards k m (c.seal_file key file.bytes).ciphertext ≡ ok full
    → IsCollisionFree c.hash full
    → length collected ≡ length full
    → k ≤ present_count (check_hashes c u.manifest.body.shards 0 collected)
    → c.unwrap_file_key (c.wrap_file_key key) ≡ some key
    → c.of_base64 (c.to_base64 (c.seal_file key file.bytes).iv)
      ≡ some (c.seal_file key file.bytes).iv
    → c.open_file key (c.seal_file key file.bytes).iv (c.seal_file key file.bytes).ciphertext
      ≡ some file.bytes
    → finalize c u.manifest collected
      ≡ finished (record { bytes = file.bytes; name = file.name; content_type = file.content_type })
upload_file-finalize c text_of offer_ack store_ack clock self_peer_id identity_key file_id key file
      k m peers store u full collected k_pos m_pos few bytes done made free width enough unwraps
      decodes opens =
    let described =
      upload_file-IsManifest c text_of offer_ack store_ack clock self_peer_id identity_key file_id
        key file k m peers store full made in
    let same : u.manifest
        ≡ manifest c text_of offer_ack store_ack clock self_peer_id identity_key file_id key file k
            m peers store full =
      subst
        (IsManifest c text_of offer_ack store_ack clock self_peer_id identity_key file_id key file k
          m peers store full)
        done described in
    ap (λ (d : Manifest _). finalize c d collected) same
    ∙ finalize-manifest c text_of offer_ack store_ack clock self_peer_id identity_key file_id key
        file k m peers store full collected k_pos m_pos few bytes made free width
        (subst (λ (d : Manifest _). k ≤ present_count (check_hashes c d.body.shards 0 collected))
          same enough)
    ∙ open_sealed-file c text_of offer_ack store_ack clock self_peer_id identity_key file_id key
        file k m peers store full unwraps decodes opens
