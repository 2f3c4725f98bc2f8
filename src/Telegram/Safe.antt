-- ===== src/Telegram/Safe.antt =====
-- `commit_manifest` loses no message.
use telegram_block_device.Prelude.{
  ℕ, inl, inr, Bool-cases, Option, none, some, List, [], ◌∷◌, ok_or, ◌>>=◌, lift,
}
use telegram_block_device.Prelude.Bytes.{Text}
use telegram_block_device.Errors.{division_by_zero}
use telegram_block_device.Format.Digest.{Digest, sha256_hex}
use telegram_block_device.Format.Envelope.{ObjectEnvelope, encode}
use telegram_block_device.Format.Manifest.{Manifest, ManifestJson}
use telegram_block_device.Format.Tree.{ManifestTreeLeaf, tree_leaves, tree_root}
use telegram_block_device.Format.Superblock.{SuperblockJson, encode_text}
use telegram_block_device.Telegram.{Chat, Message, TreeJson}
use telegram_block_device.Telegram.Chats.{Keeps}
use telegram_block_device.Telegram.Reads.{fetch_object-Exact, pinned_superblock_text-Exact}
use telegram_block_device.Telegram.Storage.{
  fetch_object, pinned_message, pinned_superblock_text, upsert_pinned_superblock, upsert_over,
  pin_new, send_superblock_backup, is_superblock,
}
use telegram_block_device.Telegram.Manifests.{
  manifest_object_id, object_id_for_index, envelope_of, send_envelope, send_leaves, send_manifest,
  send_manifest_tree, uses_tree, send_encoded, decoded, superblock_of, commit_manifest,
}
use telegram_block_device.Telegram.Sends.{Safe, chain, exact, send_object-Safe}

module _ (T : Chat) (K : Keeps T) (D : Digest) (J : ManifestJson) (L : TreeJson)
    (serde : SuperblockJson) where
  pub send_envelope-Safe : (e : ObjectEnvelope) → Safe T K (send_envelope T D J L serde e)
  unfolding send_envelope
  send_envelope-Safe e =
      send_object-Safe T K D e.object_id e.generation (encode D e) (sha256_hex D (encode D e))

  pub send_leaves-Safe :
      (generation object_size : ℕ) (leaves : List ManifestTreeLeaf)
      → Safe T K (send_leaves T D J L serde generation object_size leaves)
  unfolding send_leaves
  send_leaves-Safe generation object_size [] s j x h = h
  send_leaves-Safe generation object_size (leaf ∷ leaves) s j x h =
      let e : ObjectEnvelope =
        envelope_of (object_id_for_index leaf.leaf_index) generation object_size
          (L.encode_leaf leaf) in
      chain T K (send_envelope T D J L serde e) _ (send_envelope-Safe e)
        (λ remote.
          chain T K (send_leaves T D J L serde generation object_size leaves) _
            (send_leaves-Safe generation object_size leaves) (λ rest s j x h. h))
        s j x h

  pub send_manifest-Safe :
      (m : Manifest) (object_size : ℕ) (payload : List ℕ)
      → Safe T K (send_manifest T D J L serde m object_size payload)
  unfolding send_manifest
  send_manifest-Safe m object_size payload =
      let e : ObjectEnvelope = envelope_of manifest_object_id m.generation object_size payload in
      chain T K (send_envelope T D J L serde e) _ (send_envelope-Safe e) (λ r.
        chain T K (fetch_object T D r) _
          (exact T K (fetch_object T D r) (fetch_object-Exact T K D r)) (λ bytes s j x h. h))

  send_manifest_tree-Safe :
      (m : Manifest) (object_size : ℕ) → Safe T K (send_manifest_tree T D J L serde m object_size)
  unfolding send_manifest_tree
  send_manifest_tree-Safe m object_size =
      chain T K {A = List ManifestTreeLeaf} (lift (ok_or (tree_leaves m 4096) division_by_zero))
        (λ leaves. send_leaves T D J L serde m.generation object_size leaves >>= λ refs.
          send_manifest T D J L serde m object_size (L.encode_root (tree_root m 4096 refs)))
        (λ s j x h. h)
        (λ leaves.
          chain T K (send_leaves T D J L serde m.generation object_size leaves)
            (λ refs.
              send_manifest T D J L serde m object_size (L.encode_root (tree_root m 4096 refs)))
            (send_leaves-Safe m.generation object_size leaves)
            (λ refs. send_manifest-Safe m object_size (L.encode_root (tree_root m 4096 refs))))

  send_encoded-Safe :
      (m : Manifest) (object_size : ℕ) → Safe T K (send_encoded T D J L serde m object_size)
  send_encoded-Safe m object_size s = elim (Bool-cases (uses_tree T D J L serde m)) [
    | inl large ↦ rw large (send_manifest_tree-Safe m object_size s)
    | inr small ↦ rw small (send_manifest-Safe m object_size (J.encode_json m) s)
  ]

  backup-Safe : (text : Text) → Safe T K (send_superblock_backup T text)
  backup-Safe text = K.send_keeps text none

  pin_new-Safe : (text : Text) → Safe T K (pin_new T text)
  pin_new-Safe text = chain T K (T.send_message text none) _ (K.send_keeps text none) (λ id.
      chain T K (T.pin_message id) _ (exact T K (T.pin_message id) (K.pin_keeps id))
        (λ _. chain T K (send_superblock_backup T text) _ (backup-Safe text) (λ backup s j x h. h)))

  upsert_over-Safe : (text : Text) (m : Option (Message T.Media)) → Safe T K (upsert_over T text m)
  upsert_over-Safe text none s = pin_new-Safe text s
  upsert_over-Safe text (some m) s = elim (Bool-cases (is_superblock m.text)) [
    | inl pinned ↦
        rw pinned
          (chain T K (send_superblock_backup T text) _ (backup-Safe text) (λ backup s j x h. h) s)
    | inr other ↦ rw other (pin_new-Safe text s)
  ]

  pub upsert-Safe : (text : Text) → Safe T K (upsert_pinned_superblock T text)
  unfolding upsert_pinned_superblock
  upsert-Safe text =
      chain T K (pinned_message T) _ (exact T K (pinned_message T) (λ s j. K.pinned_keeps s j))
        (upsert_over-Safe text)

  -- Whether it succeeds or fails, a commit loses no message.
  pub commit_manifest-Safe :
      (now : ℕ) (m : Manifest) (device_size logical_sector_size object_size : ℕ)
      → Safe T K (commit_manifest T D J L serde now m device_size logical_sector_size object_size)
  unfolding commit_manifest
  commit_manifest-Safe now m device_size logical_sector_size object_size =
      chain T K (send_encoded T D J L serde m object_size) _ (send_encoded-Safe m object_size) (λ r.
        chain T K (pinned_superblock_text T) _
          (exact T K (pinned_superblock_text T) (pinned_superblock_text-Exact T K))
          (λ pinned.
            chain T K
              (upsert_pinned_superblock T (
                encode_text serde (
                  superblock_of T D J L serde now m device_size logical_sector_size object_size r
                    (decoded T D J L serde pinned))))
              _ (upsert-Safe _) (λ id s j x h. h)))
