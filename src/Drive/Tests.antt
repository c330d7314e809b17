-- ===== src/Drive/Tests.antt =====
-- Runs of the drive, and its theorems at concrete inputs.
use ccn.Prelude.{
  ◌⊎◌, ℕ, ◌≤◌, ◌<◌, ◌≡◌, refl, sym, ◌∙◌, arith, Bool, true, false, Option, none, some, String, List,
  [], ◌∷◌, eqb, eqb_iff, if◌then◌else◌, Bool-cases, inl, inr, map_get, map_set, string_key, ◌==◌,
}
use ccn.Erasure.Outcome.{ok}
use ccn.Erasure.Gf256.{
  inv, exp_at, log_at, build_tables, fill, mirror_exp, double, mul_add_row, accumulate_row,
  accumulate,
}
use ccn.Erasure.Matrix.{
  tabulate, try_tabulate, unit_row, identity_rows, cauchy_row, build_encoding_matrix,
}
use ccn.Erasure.ReedSolomon.{
  Shard, new_reed_solomon, with_matrix, encode, combine, equal_lengths, shard_length,
}
use ccn.Erasure.ReedSolomon.Presence.{present_count}
use ccn.Erasure.Split.{pieces, split_into_shards}
use ccn.Drive.{PeerDriveStore, StoredShard}
use ccn.Drive.Manifest.{ManifestBody, Manifest, FileCrypto, sign_manifest, verify_manifest}
use ccn.Drive.Download.{
  finished, failed, DownloadFailure, check_slot, check_hashes, finalize, collect_local, count_local,
  download_file, pick, fetch_one, fetch_all, fetch_more, fetch_missing, finalize_if_enough,
  collect_and_finalize,
}
use ccn.Drive.Download.Intact.{IsCollisionFree}
use ccn.Drive.Download.Collecting.{Fails, download_file-Fails}
use ccn.Drive.Upload.{
  File, Uploaded, UploadResult, all_shards, describe, manifest_of, publish_file, upload_shards,
  upload_file, allocate_shards, round_robin, distribute, distribute_one, store_self, offered,
  count_store,
}
use ccn.Drive.Upload.Described.{upload_file-finalize}
use ccn.Drive.Holder.{DriveMessage, Holder, handle, handle_all}
use ccn.Drive.Holder.Verified.{IsVerified, handle_all-IsVerified, handle-fetch}

abbrev same_bytes : List ℕ → List ℕ → Bool
same_bytes [] [] = true
same_bytes [] (y ∷ ys) = false
same_bytes (x ∷ xs) [] = false
same_bytes (x ∷ xs) (y ∷ ys) = if eqb x y then same_bytes xs ys else false

same_bytes_sound : (xs ys : List ℕ) → same_bytes xs ys ≡ true → xs ≡ ys
same_bytes_sound [] [] h = refl
same_bytes_sound [] (y ∷ ys) h = absurd (cc)
same_bytes_sound (x ∷ xs) [] h = absurd (cc)
same_bytes_sound (x ∷ xs) (y ∷ ys) h = elim (Bool-cases (eqb x y)) [
  | inr e ↦ let g : false ≡ true = rw e at h in absurd (cc)
  | inl e ↦ rw ((eqb_iff x y).0 e, same_bytes_sound xs ys (rw e at h)) refl
]

-- A hash without collisions on three shards.
abbrev named : List ℕ → String
named s =
    if same_bytes s (1 ∷ 2 ∷ [])
    then "a"
    else (if same_bytes s (3 ∷ 4 ∷ [])
        then "b"
        else (if same_bytes s (0x8f ∷ 0xf6 ∷ []) then "c" else "other"))

abbrev crypto : FileCrypto ℕ ℕ
crypto = record {
  hash = named;
  to_base64 = λ bytes. "text";
  of_base64 = λ text. some (9 ∷ []);
  seal_file = λ key bytes. record { iv = 9 ∷ []; ciphertext = bytes };
  open_file = λ key iv bytes. some bytes;
  wrap_file_key = λ key. key;
  unwrap_file_key = λ key. some key;
  canonical = λ manifest. [];
  sign_bytes = λ bytes. bytes;
  importable = λ key. true;
  verify_bytes = λ key bytes signature. some true;
}

abbrev text_of : ℕ → String
text_of n = if eqb n 0 then "0" else (if eqb n 1 then "1" else "2")

abbrev always_yes : String → ℕ → Option Bool
always_yes holder i = some true

abbrev empty_store : PeerDriveStore (ManifestBody ℕ)
empty_store = record { shards = []; manifests = [] }

abbrev notes : File
notes = record { name = "notes"; content_type = none; bytes = 1 ∷ 2 ∷ 3 ∷ 4 ∷ [] }

abbrev shards : List Shard
shards = (1 ∷ 2 ∷ []) ∷ (3 ∷ 4 ∷ []) ∷ (0x8f ∷ 0xf6 ∷ []) ∷ []

abbrev notes_manifest : Manifest ℕ
notes_manifest = record {
  file_id = "f";
  body = record {
    name = "notes";
    size = 4;
    sealed_size = 4;
    padded_shard_size = 2;
    content_type = none;
    k = 2;
    m = 1;
    iv = "text";
    file_key_wrapped = 7;
    shards =
        record { index = 0; size = 2; hash = "a" }
        ∷ record { index = 1; size = 2; hash = "b" }
        ∷ record { index = 2; size = 2; hash = "c" }
        ∷ [];
    uploader_sign_pub_key = "key";
    created_at = 3;
    signature = "text";
  };
}

abbrev shard_of : ℕ → Shard → StoredShard
shard_of i s = record { file_id = "f"; index = i; bytes = s; hash = named s; received_at = i }

abbrev notes_upload : Uploaded ℕ
notes_upload = record {
  manifest = notes_manifest;
  store = record {
    shards = ("f:0", shard_of 0 (1 ∷ 2 ∷ [])) ∷ ("f:2", shard_of 2 (0x8f ∷ 0xf6 ∷ [])) ∷ [];
    manifests = ("f", notes_manifest) ∷ [];
  };
  broadcasts = notes_manifest ∷ [];
  published = 0 ∷ 1 ∷ 2 ∷ [];
}

all_shards_test : all_shards 2 1 (1 ∷ 2 ∷ 3 ∷ 4 ∷ []) ≡ ok shards
unfolding all_shards split_into_shards pieces new_reed_solomon with_matrix build_encoding_matrix
    identity_rows cauchy_row tabulate try_tabulate unit_row inv exp_at log_at build_tables fill
    mirror_exp double encode combine equal_lengths shard_length mul_add_row accumulate_row
    accumulate
all_shards_test = refl

upload_file_test :
    upload_file crypto text_of always_yes always_yes
      (λ n. n)
      "me"
      "key"
      "f"
      7
      notes
      2
      1
      ("p" ∷ [])
      empty_store
    ≡ UploadResult.uploaded notes_upload
unfolding upload_file upload_shards publish_file manifest_of sign_manifest describe allocate_shards
    round_robin distribute distribute_one store_self offered count_store all_shards
    split_into_shards pieces new_reed_solomon with_matrix build_encoding_matrix identity_rows
    cauchy_row tabulate try_tabulate unit_row inv exp_at log_at build_tables fill mirror_exp double
    encode combine equal_lengths shard_length mul_add_row accumulate_row accumulate map_set
upload_file_test = refl

named_cases :
    (t : Shard)
    → ((named t ≡ "a") × (t ≡ 1 ∷ 2 ∷ []))
      ⊎ ((named t ≡ "b") × (t ≡ 3 ∷ 4 ∷ []))
      ⊎ ((named t ≡ "c") × (t ≡ 0x8f ∷ 0xf6 ∷ []))
      ⊎ (named t ≡ "other")
named_cases t = elim (Bool-cases (same_bytes t (1 ∷ 2 ∷ []))) [
  | inl e ↦ inl (rw e refl, same_bytes_sound _ _ e)
  | inr e ↦ elim (Bool-cases (same_bytes t (3 ∷ 4 ∷ []))) [
    | inl f ↦ inr (inl (rw (e, f) refl, same_bytes_sound _ _ f))
    | inr f ↦ elim (Bool-cases (same_bytes t (0x8f ∷ 0xf6 ∷ []))) [
      | inl g ↦ inr (inr (inl (rw (e, f, g) refl, same_bytes_sound _ _ g)))
      | inr g ↦ inr (inr (inr (rw (e, f, g) refl)))
    ]
  ]
]

different : (x y : String) → (x == y) ≡ false → x ≡ y → ⊥
different x y f e = absurd (cc (f, (string_key.same_iff x y).1 e))

-- The cases of a hash that is one of the three names.
only_a : (t : Shard) → named t ≡ "a" → t ≡ 1 ∷ 2 ∷ []
only_a t h = elim (named_cases t) [
  | inl (e, f) ↦ f
  | inr (inl (e, f)) ↦ absurd (different "b" "a" refl (sym e ∙ h))
  | inr (inr (inl (e, f))) ↦ absurd (different "c" "a" refl (sym e ∙ h))
  | inr (inr (inr e)) ↦ absurd (different "other" "a" refl (sym e ∙ h))
]

only_b : (t : Shard) → named t ≡ "b" → t ≡ 3 ∷ 4 ∷ []
only_b t h = elim (named_cases t) [
  | inl (e, f) ↦ absurd (different "a" "b" refl (sym e ∙ h))
  | inr (inl (e, f)) ↦ f
  | inr (inr (inl (e, f))) ↦ absurd (different "c" "b" refl (sym e ∙ h))
  | inr (inr (inr e)) ↦ absurd (different "other" "b" refl (sym e ∙ h))
]

only_c : (t : Shard) → named t ≡ "c" → t ≡ 0x8f ∷ 0xf6 ∷ []
only_c t h = elim (named_cases t) [
  | inl (e, f) ↦ absurd (different "a" "c" refl (sym e ∙ h))
  | inr (inl (e, f)) ↦ absurd (different "b" "c" refl (sym e ∙ h))
  | inr (inr (inl (e, f))) ↦ f
  | inr (inr (inr e)) ↦ absurd (different "other" "c" refl (sym e ∙ h))
]

shards-IsCollisionFree : IsCollisionFree named shards
shards-IsCollisionFree = (only_a, (only_b, (only_c, tt)))

-- One shard was lost and one was tampered with.
abbrev collected : List (Option Shard)
collected = some (1 ∷ 2 ∷ []) ∷ some (3 ∷ 5 ∷ []) ∷ some (0x8f ∷ 0xf6 ∷ []) ∷ []

enough_collected : 2 ≤ present_count (check_hashes crypto notes_manifest.body.shards 0 collected)
unfolding check_hashes check_slot
enough_collected = omega arith

upload_file-finalize_example :
    finalize crypto notes_manifest collected
    ≡ finished (record { bytes = 1 ∷ 2 ∷ 3 ∷ 4 ∷ []; name = "notes"; content_type = none })
upload_file-finalize_example =
    upload_file-finalize crypto text_of always_yes always_yes (λ n. n) "me" "key" "f" 7 notes 2 1
      ("p" ∷ []) empty_store notes_upload shards collected (omega arith) (omega arith) (omega arith)
      (omega arith, (omega arith, (omega arith, (omega arith, tt)))) upload_file_test
      all_shards_test shards-IsCollisionFree refl enough_collected refl refl refl

-- The store has two shards, one of them tampered with.
abbrev bad_store : PeerDriveStore (ManifestBody ℕ)
bad_store = record {
  shards = ("f:0", shard_of 0 (1 ∷ 2 ∷ [])) ∷ ("f:1", shard_of 1 (3 ∷ 5 ∷ [])) ∷ [];
  manifests = [];
}

abbrev from_peer : String → ℕ → Option Shard
from_peer file_id i = if eqb i 2 then some (0x8f ∷ 0xf6 ∷ []) else none

bad_store_counts :
    let slots = collect_local crypto text_of (λ f i. none) from_peer bad_store "f" 3 0 in
    (2 ≤ count_local crypto text_of (λ f i. none) from_peer slots)
    × (present_count (check_hashes crypto notes_manifest.body.shards 0 slots) < 2)
unfolding collect_local count_local check_hashes check_slot map_get
bad_store_counts = (omega arith, omega arith)

download_file-Fails_example :
    Fails (download_file crypto text_of (λ f i. none) from_peer bad_store notes_manifest)
download_file-Fails_example =
    download_file-Fails crypto text_of (λ f i. none) from_peer bad_store notes_manifest
      (omega arith) (omega arith) (omega arith) bad_store_counts

abbrev new_holder : Holder ℕ ℕ
new_holder = record { held = empty_store; sent = []; stored_calls = []; manifest_calls = [] }

abbrev some_messages : List (ℕ × (String × DriveMessage ℕ ℕ))
some_messages =
    (1, ("p", DriveMessage.offer "f" 0 2 "a"))
    ∷ (2, ("p", DriveMessage.store "f" 0 "text"))
    ∷ (3, ("p", DriveMessage.publish_manifest notes_manifest))
    ∷ []

handle_all-IsVerified_example :
    IsVerified ℕ crypto text_of "bad" (handle_all ℕ crypto text_of "bad" some_messages new_holder)
handle_all-IsVerified_example =
    handle_all-IsVerified ℕ crypto text_of "bad" some_messages new_holder tt

handle-fetch_example :
    (handle ℕ crypto text_of "bad" 2 "q"
      (DriveMessage.fetch "f" 0)
      (handle ℕ crypto text_of "bad" 1 "p" (DriveMessage.store "f" 0 "text") new_holder)).sent
    ≡ ("p", DriveMessage.store_ack "f" 0 true none)
      ∷ ("q", DriveMessage.fetch_response "f" 0 (some "text") none)
      ∷ []
handle-fetch_example =
    handle-fetch ℕ crypto text_of "bad" 1 2 "p" "q" "f" "text" 0 (9 ∷ []) new_holder refl

-- With two data shards and two parity shards, where the peers have all but the first and the third,
-- the download asks for three shards, gets one, and gives up before the fourth.
abbrev wide_manifest : Manifest ℕ
wide_manifest = record notes_manifest { body = record notes_manifest.body { m = 2 } }

abbrev odd_peers : String → ℕ → Option Shard
odd_peers file_id i =
    if eqb i 1 then some (3 ∷ 4 ∷ []) else (if eqb i 3 then some (0 ∷ 0 ∷ []) else none)

download_file_gives_up :
    download_file crypto text_of (λ f i. none) odd_peers empty_store wide_manifest
    ≡ failed (DownloadFailure.too_few_available 1)
unfolding download_file verify_manifest collect_and_finalize finalize_if_enough fetch_missing
    fetch_more fetch_all fetch_one pick collect_local count_local map_get
download_file_gives_up = refl
