-- ===== src/Telegram/Manifests.antt =====
-- The manifest in the chat: `commit_manifest` of `TelegramStorage`, and the way back from a superblock.
-- The variable TGDRIVE_CRASH_AFTER_MANIFEST_UPLOAD, which stops the process for a test, is not set. `now`
-- is the clock.
use telegram_block_device.Prelude.{
  ℕ, ◌+◌, ◌-◌, ◌%◌, ◌^◌, Bool, Option, none, some, List, [], ◌∷◌, Result, ok, err, ◌>>=◌, pure,
  lift, ok_or, ensure, map_err, and_then, length, ltb, if◌then◌else◌,
}
use telegram_block_device.Prelude.Bytes.{Text, text_eq}
use telegram_block_device.Errors.{
  Error, format, leaf_missing, leaf_checksum_mismatch, division_by_zero,
}
use telegram_block_device.Format.Digest.{Digest, sha256_hex}
use telegram_block_device.Format.Envelope.{ObjectEnvelope, encode, decode}
use telegram_block_device.Format.Manifest.{RemoteObjectRef, Manifest, ManifestJson}
use telegram_block_device.Format.Tree.{
  ManifestTreeLeaf, ManifestTreeLeafRef, ManifestTreeRoot, tree_leaves, tree_root,
  from_tree_root_and_leaves,
}
use telegram_block_device.Format.Superblock.{
  Superblock, SuperblockJson, ManifestEncoding, flat_json, tree, for_manifest, for_tree_manifest,
  encode_text, decode_text,
}
use telegram_block_device.Backend.{ManifestCommitter}
use telegram_block_device.Telegram.{Chat, TreeJson}
use telegram_block_device.Telegram.Storage.{
  Call, send_object, fetch_object, get_messages_by_id, pinned_superblock_text,
  upsert_pinned_superblock, telegram,
}

abbrev pub manifest_object_id : ℕ
manifest_object_id = 2 ^ 64 - 2

abbrev pub manifest_tree_leaf_base_object_id : ℕ
manifest_tree_leaf_base_object_id = 2 ^ 64 - 1000001

abbrev pub manifest_tree_leaf_span : ℕ
manifest_tree_leaf_span = 4096

-- `ManifestTreeLeaf::object_id_for_index`, which wraps below 0.
abbrev pub object_id_for_index : ℕ → ℕ
object_id_for_index leaf_index =
    (manifest_tree_leaf_base_object_id + 2 ^ 64 - leaf_index % 2 ^ 64) % 2 ^ 64

abbrev pub envelope_of : ℕ → ℕ → ℕ → List ℕ → ObjectEnvelope
envelope_of object_id generation object_size payload = record {
  object_id = object_id;
  generation = generation;
  object_size = object_size;
  flags = 0;
  payload = payload;
}

abbrev pub ids_of : List ManifestTreeLeafRef → List ℕ
ids_of [] = []
ids_of (l ∷ ls) = l.remote.message_id ∷ ids_of ls

module _ (T : Chat) (D : Digest) (J : ManifestJson) (K : TreeJson) (serde : SuperblockJson) where
  -- One round of the loop of `fetch_manifest_tree_leaves`.
  unfoldable pub open_leaf : ManifestTreeLeafRef → Option (List ℕ) → Result Error ManifestTreeLeaf
  unfolding decode sha256_hex text_eq
  open_leaf r found = and_then (ok_or found (leaf_missing r.leaf_index)) (λ encoded.
      and_then (map_err format (decode D encoded r.remote.object_id r.remote.generation))
        (λ envelope.
          and_then (ensure (text_eq (sha256_hex D encoded) r.remote.sha256) leaf_checksum_mismatch)
            (λ _. K.decode_leaf envelope.payload)))

  -- `zip`
  unfoldable pub open_leaves :
      List ManifestTreeLeafRef → List (Option (List ℕ)) → Result Error (List ManifestTreeLeaf)
  unfolding open_leaf
  open_leaves [] found = ok []
  open_leaves (r ∷ rs) [] = ok []
  open_leaves (r ∷ rs) (m ∷ ms) =
      and_then (open_leaf r m) (λ leaf. and_then (open_leaves rs ms) (λ leaves. ok (leaf ∷ leaves)))

  unfoldable pub fetch_manifest_tree_leaves : ManifestTreeRoot → Call T (List ManifestTreeLeaf)
  unfolding get_messages_by_id open_leaves
  fetch_manifest_tree_leaves root = do
    messages ← get_messages_by_id T (ids_of root.leaves)
    lift (open_leaves root.leaves messages)

  abbrev pub root_ref : Superblock → RemoteObjectRef
  root_ref superblock = record {
    chat_id = T.dialog_id;
    message_id = superblock.current_manifest_message_id;
    object_id = manifest_object_id;
    generation = superblock.manifest_generation;
    sha256 = superblock.manifest_hash;
  }

  abbrev pub fetch_envelope : RemoteObjectRef → Call T ObjectEnvelope
  fetch_envelope r = do
    encoded ← fetch_object T D r
    lift (map_err format (decode D encoded manifest_object_id r.generation))

  abbrev pub fetch_encoded : ManifestEncoding → RemoteObjectRef → Call T Manifest
  fetch_encoded flat_json r s =
      (do envelope ← fetch_envelope r; lift (J.decode_json envelope.payload)) s
  fetch_encoded tree r s =
      (do
        envelope ← fetch_envelope r
        root ← lift (K.decode_root envelope.payload)
        leaves ← fetch_manifest_tree_leaves root
        lift (from_tree_root_and_leaves root leaves))
        s

  unfoldable pub fetch_manifest_from_superblock : Superblock → Call T Manifest
  unfolding fetch_object decode fetch_manifest_tree_leaves from_tree_root_and_leaves
  fetch_manifest_from_superblock superblock =
      fetch_encoded superblock.manifest_encoding (root_ref superblock)

  -- An envelope is encoded and sent under its own checksum.
  unfoldable pub send_envelope : ObjectEnvelope → Call T RemoteObjectRef
  unfolding send_object encode sha256_hex
  send_envelope e =
      send_object T D e.object_id e.generation (encode D e) (sha256_hex D (encode D e))

  -- The loop over the leaves.
  unfoldable pub send_leaves : ℕ → ℕ → List ManifestTreeLeaf → Call T (List ManifestTreeLeafRef)
  unfolding send_envelope
  send_leaves generation object_size [] = pure []
  send_leaves generation object_size (leaf ∷ leaves) = do
    remote ← send_envelope (
        envelope_of (object_id_for_index leaf.leaf_index) generation object_size
          (K.encode_leaf leaf))
    rest ← send_leaves generation object_size leaves
    pure (
        record {
          leaf_index = leaf.leaf_index;
          start_object_id = leaf.start_object_id;
          object_count = length leaf.objects;
          remote = remote;
        }
        ∷ rest)

  -- What both encodings end with: the payload is sent, and fetched once.
  unfoldable pub send_manifest : Manifest → ℕ → List ℕ → Call T RemoteObjectRef
  unfolding send_envelope fetch_object
  send_manifest manifest object_size payload = do
    r ← send_envelope (envelope_of manifest_object_id manifest.generation object_size payload)
    read_back ← fetch_object T D r
    pure r

  unfoldable pub send_manifest_tree : Manifest → ℕ → Call T RemoteObjectRef
  unfolding send_leaves send_manifest tree_leaves
  send_manifest_tree manifest object_size = do
    leaves ← lift (ok_or (tree_leaves manifest manifest_tree_leaf_span) division_by_zero)
    refs ← send_leaves manifest.generation object_size leaves
    send_manifest manifest object_size
        (K.encode_root (tree_root manifest manifest_tree_leaf_span refs))

  abbrev pub uses_tree : Manifest → Bool
  uses_tree manifest = ltb manifest_tree_leaf_span (length manifest.objects)

  abbrev pub send_encoded : Manifest → ℕ → Call T RemoteObjectRef
  send_encoded manifest object_size =
      if uses_tree manifest
      then send_manifest_tree manifest object_size
      else send_manifest manifest object_size (J.encode_json manifest)

  -- `pinned.and_then(|text| Superblock::decode_text(&text).ok())`
  abbrev pub ok_of : Result Error Superblock → Option Superblock
  ok_of (ok b) = some b
  ok_of (err e) = none

  abbrev pub decoded : Option Text → Option Superblock
  decoded none = none
  decoded (some text) = ok_of (decode_text serde text)

  abbrev pub superblock_of :
      ℕ → Manifest → ℕ → ℕ → ℕ → RemoteObjectRef → Option Superblock → Superblock
  superblock_of now manifest device_size logical_sector_size object_size manifest_ref previous =
      if uses_tree manifest
      then for_tree_manifest now manifest.device_uuid device_size logical_sector_size object_size
          manifest_ref previous
      else for_manifest now manifest.device_uuid device_size logical_sector_size object_size
          manifest_ref previous

  unfoldable pub commit_manifest : ℕ → ManifestCommitter (telegram T D)
  unfolding send_manifest_tree send_manifest decode_text encode_text upsert_pinned_superblock
  commit_manifest now manifest device_size logical_sector_size object_size = do
    manifest_ref ← send_encoded manifest object_size
    pinned ← pinned_superblock_text T
    id ← upsert_pinned_superblock T (
        encode_text serde (
          superblock_of now manifest device_size logical_sector_size object_size manifest_ref
            (decoded pinned)))
    pure tt
