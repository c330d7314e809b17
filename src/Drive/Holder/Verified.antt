-- ===== src/Drive/Holder/Verified.antt =====
-- What a holder keeps and what it answers.
use ccn.Prelude.{
  ℕ, ◌≡◌, refl, true, Option, none, some, String, List, [], ◌∷◌, ◌++◌, if_cases, string_key,
  AllValues, AllValues-set, map_get-set_self,
}
use ccn.Drive.{shard_key}
use ccn.Drive.Manifest.{ManifestBody, Manifest, FileCrypto, verify_manifest}
use ccn.Drive.Holder.{
  DriveMessage, Holder, reply, keep_shard, on_store, encoded, take_manifest, take_manifests, handle,
  handle_all,
}

module _ {FileKey Wrapped : Type 0} (Payload : Type 0) (c : FileCrypto FileKey Wrapped)
    (text_of : ℕ → String) (bad_base64 : String) where
  abbrev pub IsVerified : Holder Wrapped Payload → Type 0
  IsVerified h = AllValues (λ m. verify_manifest c m ≡ true) h.held.manifests

  take_manifest-IsVerified :
      (m : Manifest Wrapped) (h : Holder Wrapped Payload)
      → IsVerified h
      → IsVerified (take_manifest Payload c text_of bad_base64 m h)
  unfolding take_manifest
  take_manifest-IsVerified m h v =
      if_cases IsVerified (verify_manifest c m) _ _
        (λ e. AllValues-set (λ m. verify_manifest c m ≡ true) m.file_id m h.held.manifests e v)
        (λ e. v)

  take_manifests-IsVerified :
      (ms : List (Manifest Wrapped)) (h : Holder Wrapped Payload)
      → IsVerified h
      → IsVerified (take_manifests Payload c text_of bad_base64 ms h)
  unfolding take_manifests
  take_manifests-IsVerified [] h v = v
  take_manifests-IsVerified (m ∷ ms) h v =
      take_manifests-IsVerified ms _ (take_manifest-IsVerified m h v)

  on_store-IsVerified :
      (now : ℕ) (from file_id : String) (index : ℕ) (o : Option (List ℕ))
      (h : Holder Wrapped Payload)
      → IsVerified h
      → IsVerified (on_store Payload c text_of bad_base64 now from file_id index o h)
  unfolding on_store reply keep_shard
  on_store-IsVerified now from file_id index none h v = v
  on_store-IsVerified now from file_id index (some bytes) h v = v

  handle-IsVerified :
      (now : ℕ) (from : String) (msg : DriveMessage Wrapped Payload) (h : Holder Wrapped Payload)
      → IsVerified h
      → IsVerified (handle Payload c text_of bad_base64 now from msg h)
  unfolding handle reply
  handle-IsVerified now from (DriveMessage.offer file_id index size hash) h v = v
  handle-IsVerified now from (DriveMessage.store file_id index data_base64) h v =
      on_store-IsVerified now from file_id index _ h v
  handle-IsVerified now from (DriveMessage.fetch file_id index) h v = v
  handle-IsVerified now from (DriveMessage.publish_manifest m) h v = take_manifest-IsVerified m h v
  handle-IsVerified now from DriveMessage.manifest_sync_request h v = v
  handle-IsVerified now from (DriveMessage.manifest_sync_response ms) h v =
      take_manifests-IsVerified ms h v
  handle-IsVerified now from (DriveMessage.dht payload) h v = v
  handle-IsVerified now from (DriveMessage.offer_ack file_id index accept reason) h v = v
  handle-IsVerified now from (DriveMessage.store_ack file_id index success reason) h v = v
  handle-IsVerified now from (DriveMessage.fetch_response file_id index data_base64 reason) h v = v

  -- Whatever messages come from whomever, a holder whose manifests all verify goes on to hold only
  -- manifests that verify.
  pub handle_all-IsVerified :
      (msgs : List (ℕ × (String × DriveMessage Wrapped Payload))) (h : Holder Wrapped Payload)
      → IsVerified h
      → IsVerified (handle_all Payload c text_of bad_base64 msgs h)
  handle_all-IsVerified [] h v = v
  handle_all-IsVerified ((now, (from, msg)) ∷ msgs) h v =
      handle_all-IsVerified msgs _ (handle-IsVerified now from msg h v)

  -- A shard that was stored under base64 that decodes is acknowledged, and the next fetch of it, by
  -- any peer, is answered with the base64 of the same bytes.
  pub handle-fetch :
      (now later : ℕ) (from asker file_id data_base64 : String) (index : ℕ) (bytes : List ℕ)
      (h : Holder Wrapped Payload)
      → c.of_base64 data_base64 ≡ some bytes
      → (handle Payload c text_of bad_base64 later asker (DriveMessage.fetch file_id index) (
          handle Payload c text_of bad_base64 now from
            (DriveMessage.store file_id index data_base64)
            h)).sent
        ≡ (h.sent ++ ((from, DriveMessage.store_ack file_id index true none) ∷ []))
          ++ ((asker, DriveMessage.fetch_response file_id index (some (c.to_base64 bytes)) none)
              ∷ [])
  unfolding handle on_store reply keep_shard encoded
  handle-fetch now later from asker file_id data_base64 index bytes h e =
      rw
        (
          e,
          map_get-set_self (shard_key (ManifestBody Wrapped) text_of file_id index) _ h.held.shards,
        )
        refl
