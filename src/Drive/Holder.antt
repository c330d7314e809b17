-- ===== src/Drive/Holder.antt =====
-- bindHolder of frontend/src/lib/drive/driveClient.ts and the messages of protocol.ts. An await
-- inside the handler is not a step of its own; the text of an error is a parameter.
pub mod Verified
use ccn.Prelude.{
  ℕ, ◌≡◌, refl, Bool, true, false, Option, none, some, String, List, [], ◌∷◌, ◌++◌, if◌then◌else◌,
  string_key,
}
use ccn.Drive.{
  PeerDriveStore, StoredShard, SignedManifest, put_shard, get_shard, put_manifest, all_manifests,
}
use ccn.Drive.Manifest.{ManifestBody, Manifest, FileCrypto, verify_manifest}

-- `Payload` is a message of the DHT.
pub data DriveMessage (Wrapped Payload : Type 0) : Type 0 where
  dht : Payload → DriveMessage Wrapped Payload
  offer : (file_id : String) (index size : ℕ) (hash : String) → DriveMessage Wrapped Payload
  offer_ack :
      (file_id : String) (index : ℕ) (accept : Bool) (reason : Option String)
      → DriveMessage Wrapped Payload
  store : (file_id : String) (index : ℕ) (data_base64 : String) → DriveMessage Wrapped Payload
  store_ack :
      (file_id : String) (index : ℕ) (success : Bool) (reason : Option String)
      → DriveMessage Wrapped Payload
  publish_manifest : Manifest Wrapped → DriveMessage Wrapped Payload
  fetch : (file_id : String) (index : ℕ) → DriveMessage Wrapped Payload
  fetch_response :
      (file_id : String) (index : ℕ) (data_base64 : Option String) (reason : Option String)
      → DriveMessage Wrapped Payload
  manifest_sync_request : DriveMessage Wrapped Payload
  manifest_sync_response : List (Manifest Wrapped) → DriveMessage Wrapped Payload

-- The store of the peer, what it sent and to whom, and the calls of onShardStored and onManifest.
pub record Holder (Wrapped Payload : Type 0) : Type 0 where
  pub held : PeerDriveStore (ManifestBody Wrapped)
  pub sent : List (String × DriveMessage Wrapped Payload)
  pub stored_calls : List (String × (ℕ × List ℕ))
  pub manifest_calls : List (Manifest Wrapped)

module _ {FileKey Wrapped : Type 0} (Payload : Type 0) (c : FileCrypto FileKey Wrapped)
    (text_of : ℕ → String) (bad_base64 : String) where
  unfoldable pub reply :
      String → DriveMessage Wrapped Payload → Holder Wrapped Payload → Holder Wrapped Payload
  reply from msg h = record h { sent = h.sent ++ ((from, msg) ∷ []) }

  unfoldable pub keep_shard :
      ℕ → String → ℕ → List ℕ → Holder Wrapped Payload → Holder Wrapped Payload
  keep_shard now file_id index bytes h = record h {
    held =
        put_shard (ManifestBody Wrapped) text_of
          (record {
            file_id = file_id;
            index = index;
            bytes = bytes;
            hash = c.hash bytes;
            received_at = now;
          })
          h.held;
    stored_calls = h.stored_calls ++ ((file_id, (index, bytes)) ∷ []);
  }

  unfoldable pub on_store :
      ℕ → String → String → ℕ → Option (List ℕ) → Holder Wrapped Payload → Holder Wrapped Payload
  on_store now from file_id index none h =
      reply from (DriveMessage.store_ack file_id index false (some bad_base64)) h
  on_store now from file_id index (some bytes) h =
      reply from (DriveMessage.store_ack file_id index true none)
        (keep_shard now file_id index bytes h)

  unfoldable pub encoded : Option StoredShard → Option String
  encoded none = none
  encoded (some shard) = some (c.to_base64 shard.bytes)

  unfoldable pub take_manifest : Manifest Wrapped → Holder Wrapped Payload → Holder Wrapped Payload
  take_manifest manifest h =
      if verify_manifest c manifest
      then record h {
        held = put_manifest (ManifestBody Wrapped) text_of manifest h.held;
        manifest_calls = h.manifest_calls ++ (manifest ∷ []);
      }
      else h

  unfoldable pub take_manifests :
      List (Manifest Wrapped) → Holder Wrapped Payload → Holder Wrapped Payload
  take_manifests [] h = h
  take_manifests (m ∷ manifests) h = take_manifests manifests (take_manifest m h)

  unfoldable pub handle :
      ℕ → String → DriveMessage Wrapped Payload → Holder Wrapped Payload → Holder Wrapped Payload
  handle now from (DriveMessage.offer file_id index size hash) h =
      reply from (DriveMessage.offer_ack file_id index true none) h
  handle now from (DriveMessage.store file_id index data_base64) h =
      on_store now from file_id index (c.of_base64 data_base64) h
  handle now from (DriveMessage.fetch file_id index) h =
      reply from
        (DriveMessage.fetch_response file_id index
          (encoded (get_shard (ManifestBody Wrapped) text_of file_id index h.held)) none)
        h
  handle now from (DriveMessage.publish_manifest manifest) h = take_manifest manifest h
  handle now from DriveMessage.manifest_sync_request h =
      reply from
        (DriveMessage.manifest_sync_response (all_manifests (ManifestBody Wrapped) text_of h.held))
        h
  handle now from (DriveMessage.manifest_sync_response manifests) h = take_manifests manifests h
  handle now from (DriveMessage.dht payload) h = h
  handle now from (DriveMessage.offer_ack file_id index accept reason) h = h
  handle now from (DriveMessage.store_ack file_id index success reason) h = h
  handle now from (DriveMessage.fetch_response file_id index data_base64 reason) h = h

  -- A series of messages, each with its time and its sender.
  abbrev pub handle_all :
      List (ℕ × (String × DriveMessage Wrapped Payload))
      → Holder Wrapped Payload
      → Holder Wrapped Payload
  handle_all [] h = h
  handle_all ((now, (from, msg)) ∷ msgs) h = handle_all msgs (handle now from msg h)
