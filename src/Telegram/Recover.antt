-- ===== src/Telegram/Recover.antt =====
-- From a superblock back to the manifest.
use telegram_block_device.Prelude.{
  stepped, ℕ, ◌≡◌, refl, sym, ◌∙◌, ap, subst, inl, inr, Bool-cases, Option, some, List, [], ◌∷◌, ok,
  pure,
}
use telegram_block_device.Prelude.Bytes.{Text}
use telegram_block_device.Prelude.Sorting.{Shuffle, nil, insert, here}
use telegram_block_device.Format.Digest.{Digest}
use telegram_block_device.Format.Envelope.{ObjectEnvelope, encode, decode}
use telegram_block_device.Format.Manifest.{RemoteObjectRef, Manifest, ManifestJson, IsLossless}
use telegram_block_device.Format.Tree.{
  tree_leaves, ManifestTreeRoot, ManifestTreeLeaf, ManifestTreeLeafRef, tree_root,
}
use telegram_block_device.Format.Tree.RoundTrip.{IsComplete, from_tree_root_and_leaves-tree_leaves}
use telegram_block_device.Format.Superblock.{
  Superblock, SuperblockJson, encode_text, decode_text, decode_text-encode_text, flat_json, tree,
}
use telegram_block_device.Format.Superblock
use telegram_block_device.Telegram.{Chat, TreeJson, ReadsBack}
use telegram_block_device.Telegram.Distinct.{Distinct}
use telegram_block_device.Telegram.Chats.{Keeps, Answers}
use telegram_block_device.Telegram.Reads.{
  get_messages_by_id_lem, fetch_object-Exact, pinned_superblock_text-Exact,
}
use telegram_block_device.Telegram.Storage.{
  Call, fetch_object, pinned_superblock_text, upsert_pinned_superblock,
}
use telegram_block_device.Telegram.Manifests.{
  manifest_object_id, envelope_of, ids_of, fetch_manifest_tree_leaves,
  fetch_manifest_from_superblock, fetch_envelope, fetch_encoded, uses_tree, send_encoded, decoded,
  superblock_of, commit_manifest,
}
use telegram_block_device.Telegram.Sends.{Later, fetch_object-Stands}
use telegram_block_device.Telegram.Safe.{upsert-Safe}
use telegram_block_device.Telegram.Leaves.{
  AllStand, Sealed, same_payload, leaves_read, AllStand-Later,
}
use telegram_block_device.Telegram.Commits.{
  Committed, flat, in_leaves, Committed-Later, send_encoded-Committed,
}
use telegram_block_device.Telegram.Posts.{HasSuperblock, upsert_posts}

Shuffle-refl : (leaves : List ManifestTreeLeaf) → Shuffle leaves leaves
Shuffle-refl [] = nil
Shuffle-refl (leaf ∷ leaves) = insert (Shuffle-refl leaves) (here leaves)

module _ (T : Chat) (K : Keeps T) (D : Digest) (J : ManifestJson) (L : TreeJson)
    (serde : SuperblockJson) where
  named_again :
      (r : RemoteObjectRef) {object_id generation : ℕ} {sha256 : Text}
      → r ≡ record {
        chat_id = T.dialog_id;
        message_id = r.message_id;
        object_id = object_id;
        generation = generation;
        sha256 = sha256;
      }
      → record {
        chat_id = T.dialog_id;
        message_id = r.message_id;
        object_id = object_id;
        generation = r.generation;
        sha256 = r.sha256;
      }
        ≡ r
  named_again r {object_id = object_id} h =
      ap
        (λ q. record {
          chat_id = T.dialog_id;
          message_id = q.message_id;
          object_id = object_id;
          generation = q.generation;
          sha256 = q.sha256;
        })
        h
      ∙ sym h

  fetch_envelope_lem :
      (generation object_size : ℕ) (payload : List ℕ) (s : T.State) (r : RemoteObjectRef)
      → Answers T K
      → (h : Sealed T K D J L serde s
          (envelope_of manifest_object_id generation object_size payload)
          r)
      → fetch_envelope T D J L serde r s ≡ (ok h.opened, (fetch_object T D r s).1)
  fetch_envelope_lem generation object_size payload s r answers h =
      let e : ObjectEnvelope = envelope_of manifest_object_id generation object_size payload in
      let there : decode D (encode D e) manifest_object_id r.generation ≡ ok h.opened =
        ap (λ q. decode D (encode D e) manifest_object_id q.generation) h.named ∙ h.decodes in
      rw (fetch_object-Stands T K D manifest_object_id generation (encode D e) s r answers h, there)
        refl

  module _ (answers : Answers T K) (lossless : IsLossless J) (reads : ReadsBack L) (m : Manifest)
      (complete : IsComplete m) where
    fetch_flat :
        (object_size : ℕ) (s : T.State) (r : RemoteObjectRef)
        → Sealed T K D J L serde s
            (envelope_of manifest_object_id m.generation object_size (J.encode_json m))
            r
        → (fetch_encoded T D J L serde flat_json r s).0 ≡ ok m
    fetch_flat object_size s r h =
        rw
          (
            fetch_envelope_lem m.generation object_size (J.encode_json m) s r answers h,
            same_payload T K D J L serde s
                (envelope_of manifest_object_id m.generation object_size (J.encode_json m)) r h,
          )
          (lossless.decode_json-encode_json m)

    fetch_tree :
        (object_size : ℕ) (s : T.State) (r : RemoteObjectRef) (leaves : List ManifestTreeLeaf)
        (rs : List ManifestTreeLeafRef)
        → tree_leaves m 4096 ≡ some leaves
        → AllStand T K D J L serde s m.generation object_size leaves rs
        → Distinct (ids_of rs)
        → Sealed T K D J L serde s
            (envelope_of manifest_object_id m.generation object_size
              (L.encode_root (tree_root m 4096 rs)))
            r
        → (fetch_encoded T D J L serde tree r s).0 ≡ ok m
    unfolding fetch_manifest_tree_leaves
    fetch_tree object_size s r leaves rs cut all distinct h =
        let root : ManifestTreeRoot = tree_root m 4096 rs in
        let t : T.State = (fetch_object T D r s).1 in
        let later : Later T K s t = λ j x found. fetch_object-Exact T K D r s j ∙ found in
        let (found, read, opens) =
          leaves_read T K D J L serde m.generation object_size leaves rs t reads
            (AllStand-Later T K D J L serde m.generation object_size leaves rs all later) in
        rw
          (
            fetch_envelope_lem m.generation object_size (L.encode_root root) s r answers h,
            same_payload T K D J L serde s
                (envelope_of manifest_object_id m.generation object_size (L.encode_root root)) r h,
            reads.decode_root-encode_root root,
            (get_messages_by_id_lem T K answers (ids_of rs) t distinct).0,
            read,
            opens,
          )
          (from_tree_root_and_leaves-tree_leaves m 4096 rs leaves leaves complete cut
            (Shuffle-refl leaves))

    -- A superblock that names a committed manifest leads to it.
    fetch-Committed :
        (now device_size logical_sector_size object_size : ℕ) (r : RemoteObjectRef)
        (previous : Option Superblock) (s : T.State)
        → Committed T K D J L serde s m object_size r
        → (fetch_manifest_from_superblock T D J L serde
            (superblock_of T D J L serde now m device_size logical_sector_size object_size r
              previous)
            s).0
          ≡ ok m
    unfolding fetch_manifest_from_superblock
    fetch-Committed now device_size logical_sector_size object_size r previous s (flat small h) =
        rw small (
          ap (λ q. (fetch_encoded T D J L serde flat_json q s).0) (named_again r h.named)
          ∙ fetch_flat object_size s r h)
    fetch-Committed now device_size logical_sector_size object_size r previous s
          (in_leaves large leaves rs cut all distinct h) =
        rw large (
          ap (λ q. (fetch_encoded T D J L serde tree q s).0) (named_again r h.named)
          ∙ fetch_tree object_size s r leaves rs cut all distinct h)

  Committed-generation :
      (s : T.State) (m : Manifest) (object_size : ℕ) (r : RemoteObjectRef)
      → Committed T K D J L serde s m object_size r
      → r.generation ≡ m.generation
  Committed-generation s m object_size r (flat small h) = ap (λ q. q.generation) h.named
  Committed-generation s m object_size r (in_leaves large leaves rs cut all distinct h) =
      ap (λ q. q.generation) h.named

  superblock_generation :
      (now : ℕ) (m : Manifest) (device_size logical_sector_size object_size : ℕ)
      (r : RemoteObjectRef) (previous : Option Superblock)
      → (superblock_of T D J L serde now m device_size logical_sector_size object_size r
          previous).manifest_generation
        ≡ r.generation
  superblock_generation now m device_size logical_sector_size object_size r previous =
      elim (Bool-cases (uses_tree T D J L serde m)) [
        | inl large ↦ rw large refl
        | inr small ↦ rw small refl
      ]

  -- After a commit of a complete manifest that succeeds, and however the chat goes on: on a chat that
  -- answers and with JSON that reads back, there is a message whose text decodes to a superblock of the
  -- manifest's generation that leads to the manifest, whether that was sent whole or in leaves.
  pub fetch_manifest_from_superblock-commit_manifest :
      (now : ℕ) (m : Manifest) (device_size logical_sector_size object_size : ℕ) (s t : T.State)
      → Answers T K
      → IsLossless J
      → ReadsBack L
      → Superblock.ReadsBack serde
      → IsComplete m
      → (commit_manifest T D J L serde now m device_size logical_sector_size object_size s).0
        ≡ ok tt
      → Later T K
          (commit_manifest T D J L serde now m device_size logical_sector_size object_size s).1
          t
      → (b : Superblock) × (b.manifest_generation ≡ m.generation)
        × HasSuperblock T K D J L serde t b
        × ((fetch_manifest_from_superblock T D J L serde b t).0 ≡ ok m)
  unfolding commit_manifest
  fetch_manifest_from_superblock-commit_manifest now m device_size logical_sector_size object_size s
        t answers lossless reads serde_reads complete h later =
      let (r, sent, e₁) = stepped (send_encoded T D J L serde m object_size) _ s tt h in
      let s₁ : T.State = (send_encoded T D J L serde m object_size s).1 in
      let (pinned, got, e₂) =
        stepped (pinned_superblock_text T) _ s₁ tt (sym (ap (λ o. o.0) e₁) ∙ h) in
      let s₂ : T.State = (pinned_superblock_text T s₁).1 in
      let previous : Option Superblock = decoded T D J L serde pinned in
      let b : Superblock =
        superblock_of T D J L serde now m device_size logical_sector_size object_size r previous in
      let upsert : Call T ℕ = upsert_pinned_superblock T (encode_text serde b) in
      let (id, posted, e₃) =
        stepped upsert (λ id. pure tt) s₂ tt (sym (ap (λ o. o.0) (e₁ ∙ e₂)) ∙ h) in
      let later₃ : Later T K (upsert s₂).1 t = subst (λ o. Later T K o.1 t) (e₁ ∙ e₂ ∙ e₃) later in
      let there = send_encoded-Committed T K D J L serde m object_size s r sent in
      let kept : Committed T K D J L serde t m object_size r =
        Committed-Later T K D J L serde m object_size r there (λ j x found. later₃ j x (
          upsert-Safe T K D J L serde (encode_text serde b) s₂ j x
            (pinned_superblock_text-Exact T K s₁ j ∙ found))) in
      let (number, text) = upsert_posts T K D J L serde (encode_text serde b) s₂ id posted in
      (
        b,
        superblock_generation now m device_size logical_sector_size object_size r previous
            ∙ Committed-generation t m object_size r kept,
        (
          encode_text serde b,
          (number, later₃ number _ text),
          decode_text-encode_text serde b serde_reads,
        ),
        fetch-Committed answers lossless reads m complete now device_size logical_sector_size
            object_size r previous t kept,
      )
