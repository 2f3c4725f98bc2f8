-- ===== src/Telegram/Commits.antt =====
-- `commit_manifest` leaves a manifest in the chat that its superblock leads to.
use telegram_block_device.Prelude.{
  stepped, ℕ, ◌≡◌, refl, sym, ◌∙◌, ap, subst, inl, inr, Bool-cases, some, List, length, ok, true,
  false, ok_injective,
}
use telegram_block_device.Format.Digest.{Digest}
use telegram_block_device.Format.Envelope.{ObjectEnvelope}
use telegram_block_device.Format.Manifest.{RemoteObjectRef, Manifest, ManifestJson}
use telegram_block_device.Format.Tree.{
  chunks, leaves_from, ManifestTreeLeaf, ManifestTreeLeafRef, tree_leaves, tree_root,
}
use telegram_block_device.Format.Superblock.{SuperblockJson}
use telegram_block_device.Telegram.{Chat, TreeJson}
use telegram_block_device.Telegram.Distinct.{Distinct}
use telegram_block_device.Telegram.Chats.{Keeps}
use telegram_block_device.Telegram.Reads.{fetch_object-Exact}
use telegram_block_device.Telegram.Storage.{fetch_object}
use telegram_block_device.Telegram.Manifests.{
  manifest_object_id, envelope_of, ids_of, send_envelope, send_leaves, send_manifest,
  send_manifest_tree, uses_tree, send_encoded,
}
use telegram_block_device.Telegram.Safe.{send_manifest-Safe}
use telegram_block_device.Telegram.Sends.{Later, Stands-Later}
use telegram_block_device.Telegram.Leaves.{
  Sealed, AllStand, AllStand-Later, send_envelope-Sealed, SentLeaves, send_leaves-SentLeaves,
}

module _ (T : Chat) (K : Keeps T) (D : Digest) (J : ManifestJson) (L : TreeJson)
    (serde : SuperblockJson) where
  -- A manifest is in the chat, behind the reference of its superblock.
  pub data Committed (s : T.State) (m : Manifest) (object_size : ℕ) (r : RemoteObjectRef)
      : Type 0 where
    flat :
        uses_tree T D J L serde m ≡ false
        → Sealed T K D J L serde s
            (envelope_of manifest_object_id m.generation object_size (J.encode_json m))
            r
        → Committed s m object_size r
    in_leaves :
        uses_tree T D J L serde m ≡ true
        → (leaves : List ManifestTreeLeaf) (rs : List ManifestTreeLeafRef)
        → tree_leaves m 4096 ≡ some leaves
        → AllStand T K D J L serde s m.generation object_size leaves rs
        → Distinct (ids_of rs)
        → Sealed T K D J L serde s
            (envelope_of manifest_object_id m.generation object_size
              (L.encode_root (tree_root m 4096 rs)))
            r
        → Committed s m object_size r

  pub Committed-Later :
      {s t : T.State} (m : Manifest) (object_size : ℕ) (r : RemoteObjectRef)
      → Committed s m object_size r
      → Later T K s t
      → Committed t m object_size r
  Committed-Later m object_size r (flat small h) later = flat small (Stands-Later T K D h later)
  Committed-Later m object_size r (in_leaves large leaves rs cut all distinct h) later =
      in_leaves large leaves rs cut
        (AllStand-Later T K D J L serde m.generation object_size leaves rs all later) distinct
        (Stands-Later T K D h later)

  send_manifest-Sealed :
      (m : Manifest) (object_size : ℕ) (payload : List ℕ) (s : T.State) (r : RemoteObjectRef)
      → (send_manifest T D J L serde m object_size payload s).0 ≡ ok r
      → Sealed T K D J L serde
          (send_manifest T D J L serde m object_size payload s).1
          (envelope_of manifest_object_id m.generation object_size payload)
          r
  unfolding send_manifest
  send_manifest-Sealed m object_size payload s r h =
      let e : ObjectEnvelope = envelope_of manifest_object_id m.generation object_size payload in
      let t : T.State = (send_envelope T D J L serde e s).1 in
      let (q, sent, e₁) = stepped (send_envelope T D J L serde e) _ s r h in
      let (bytes, fetched, e₂) = stepped (fetch_object T D q) _ t r (sym (ap (λ o. o.0) e₁) ∙ h) in
      let whole : send_manifest T D J L serde m object_size payload s
          ≡ (ok q, (fetch_object T D q t).1) =
        e₁ ∙ e₂ in
      subst (λ o. Sealed T K D J L serde o.1 e r) (sym whole)
        (subst (Sealed T K D J L serde (fetch_object T D q t).1 e)
          (ok_injective (sym (ap (λ o. o.0) whole) ∙ h))
          (Stands-Later T K D (send_envelope-Sealed T K D J L serde e s q sent)
            (λ j x found. fetch_object-Exact T K D q t j ∙ found)))

  send_manifest_tree-Committed :
      (m : Manifest) (object_size : ℕ) (s : T.State) (r : RemoteObjectRef)
      → uses_tree T D J L serde m ≡ true
      → (send_manifest_tree T D J L serde m object_size s).0 ≡ ok r
      → Committed (send_manifest_tree T D J L serde m object_size s).1 m object_size r
  unfolding send_manifest_tree tree_leaves
  send_manifest_tree-Committed m object_size s r large h =
      let leaves : List ManifestTreeLeaf =
        leaves_from m 0 (chunks (length m.objects) 4096 m.objects) in
      let t : T.State = (send_leaves T D J L serde m.generation object_size leaves s).1 in
      let (rs, sent, e) =
        stepped (send_leaves T D J L serde m.generation object_size leaves) _ s r h in
      let payload : List ℕ = L.encode_root (tree_root m 4096 rs) in
      let u : T.State = (send_manifest T D J L serde m object_size payload t).1 in
      let stored : SentLeaves T K D J L serde m.generation object_size leaves s t rs =
        send_leaves-SentLeaves T K D J L serde m.generation object_size leaves s rs sent in
      subst (λ o. Committed o.1 m object_size r) (sym e)
        (in_leaves large leaves rs refl
          (AllStand-Later T K D J L serde m.generation object_size leaves rs stored.all
            (send_manifest-Safe T K D J L serde m object_size payload t))
          stored.distinct
          (send_manifest-Sealed m object_size payload t r (sym (ap (λ o. o.0) e) ∙ h)))

  pub send_encoded-Committed :
      (m : Manifest) (object_size : ℕ) (s : T.State) (r : RemoteObjectRef)
      → (send_encoded T D J L serde m object_size s).0 ≡ ok r
      → Committed (send_encoded T D J L serde m object_size s).1 m object_size r
  send_encoded-Committed m object_size s r = elim (Bool-cases (uses_tree T D J L serde m)) [
    | inr small ↦
        rw small (λ h. flat small (send_manifest-Sealed m object_size (J.encode_json m) s r h))
    | inl large ↦ rw large (send_manifest_tree-Committed m object_size s r large)
  ]
