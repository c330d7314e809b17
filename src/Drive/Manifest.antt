-- ===== src/Drive/Manifest.antt =====
-- frontend/src/lib/drive/manifest.ts: what a manifest says of a file, and the cryptography of
-- fileCrypto.ts, whose functions call WebCrypto and are a parameter.
use ccn.Prelude.{ℕ, ◌≡◌, refl, Bool, true, false, Option, none, some, String, List, if◌then◌else◌}
use ccn.Drive.{SignedManifest}

pub record ShardDescriptor : Type 0 where
  pub index : ℕ
  pub size : ℕ
  pub hash : String

-- The fields beside the identifier of the file, the signature with them.
pub record ManifestBody (Wrapped : Type 0) : Type 0 where
  pub name : String
  pub size : ℕ
  pub sealed_size : ℕ
  pub padded_shard_size : ℕ
  pub content_type : Option String
  pub k : ℕ
  pub m : ℕ
  pub iv : String
  pub file_key_wrapped : Wrapped
  pub shards : List ShardDescriptor
  pub uploader_sign_pub_key : String
  pub created_at : ℕ
  pub signature : String

abbrev pub Manifest : Type 0 → Type 0
Manifest Wrapped = SignedManifest (ManifestBody Wrapped)

pub record Sealed : Type 0 where
  pub iv : List ℕ
  pub ciphertext : List ℕ

-- `none` is a rejected promise or an error. `hash` is the base64 of SHA-256, and `canonical` the
-- bytes of the canonical JSON, which has all fields but the signature. `sign_bytes` signs with the
-- key of the uploader, and a public key stands by its base64.
pub record FileCrypto (FileKey Wrapped : Type 0) : Type 0 where
  pub hash : List ℕ → String
  pub to_base64 : List ℕ → String
  pub of_base64 : String → Option (List ℕ)
  pub seal_file : FileKey → List ℕ → Sealed
  pub open_file : FileKey → List ℕ → List ℕ → Option (List ℕ)
  pub wrap_file_key : FileKey → Wrapped
  pub unwrap_file_key : Wrapped → Option FileKey
  pub canonical : Manifest Wrapped → List ℕ
  pub sign_bytes : List ℕ → List ℕ
  pub importable : String → Bool
  pub verify_bytes : String → List ℕ → List ℕ → Option Bool

-- What the canonical JSON leaves out.
abbrev pub unsigned : {Wrapped : Type 0} → Manifest Wrapped → Manifest Wrapped
unsigned manifest = record manifest { body = record manifest.body { signature = "" } }

module _ {FileKey Wrapped : Type 0} (c : FileCrypto FileKey Wrapped) where
  unfoldable pub sign_manifest : Manifest Wrapped → Manifest Wrapped
  sign_manifest manifest = record manifest {
    body = record manifest.body {
      signature = c.to_base64 (c.sign_bytes (c.canonical (unsigned manifest)));
    };
  }

  abbrev pub or_false : Option Bool → Bool
  or_false none = false
  or_false (some b) = b

  abbrev pub verify_signature : Manifest Wrapped → Option (List ℕ) → Bool
  verify_signature manifest none = false
  verify_signature manifest (some signature) = or_false (
      c.verify_bytes manifest.body.uploader_sign_pub_key (c.canonical (unsigned manifest))
        signature)

  unfoldable pub verify_manifest : Manifest Wrapped → Bool
  verify_manifest manifest =
      if c.importable manifest.body.uploader_sign_pub_key
      then verify_signature manifest (c.of_base64 manifest.body.signature)
      else false

  -- A manifest that was signed with the key it names verifies.
  pub verify_manifest-sign_manifest :
      (manifest : Manifest Wrapped)
      → c.importable manifest.body.uploader_sign_pub_key ≡ true
      → ((bytes : List ℕ) → c.of_base64 (c.to_base64 bytes) ≡ some bytes)
      → ((bytes : List ℕ)
          → c.verify_bytes manifest.body.uploader_sign_pub_key bytes (c.sign_bytes bytes)
            ≡ some true)
      → verify_manifest (sign_manifest manifest) ≡ true
  unfolding verify_manifest sign_manifest
  verify_manifest-sign_manifest manifest key text signed = rw (key, text, signed) refl
