-- ===== src/Telegram/Leaves.antt =====
-- The leaves of a manifest, as `send_manifest_tree` of crates/tgdrive-telegram/src/client.rs sends them and
-- `fetch_manifest_tree_leaves` reads them.
use telegram_block_device.Prelude.{
  stepped, ℕ, ◌≡◌, refl, sym, ◌∙◌, ap, subst, inl, inr, Option, Option-cases, none, some, ◌==◌, ◌≢◌,
  arith, List, [], ◌∷◌, map, length, ok, true, false, ok_injective,
}
use telegram_block_device.Prelude.Bytes.{text_eq, text_eq_refl}
use telegram_block_device.Format.Digest.{Digest, sha256_hex}
use telegram_block_device.Format.Envelope.{ObjectEnvelope, encode, decode}
use telegram_block_device.Format.Envelope.Strict.{payload-decode}
use telegram_block_device.Format.Manifest.{RemoteObjectRef, ManifestJson}
use telegram_block_device.Format.Tree.{ManifestTreeLeaf, ManifestTreeLeafRef}
use telegram_block_device.Format.Superblock.{SuperblockJson}
use telegram_block_device.Telegram.{Chat, Message, TreeJson, ReadsBack}
use telegram_block_device.Telegram.Distinct.{Lacks, Distinct}
use telegram_block_device.Telegram.Chats.{Keeps}
use telegram_block_device.Telegram.Reads.{read_all}
use telegram_block_device.Telegram.Manifests.{
  object_id_for_index, envelope_of, ids_of, open_leaf, open_leaves, send_envelope, send_leaves,
}
use telegram_block_device.Telegram.Safe.{send_envelope-Safe, send_leaves-Safe}
use telegram_block_device.Telegram.Sends.{
  Later, Stands, send_object-Stands, send_object-fresh, Stands-Later,
}

differs : (a b : ℕ) → a ≢ b → (a == b) ≡ false
differs a b h = ground arith

module _ (T : Chat) (K : Keeps T) (D : Digest) (J : ManifestJson) (L : TreeJson)
    (serde : SuperblockJson) where
  -- An envelope that was sent stands under its checksum.
  abbrev pub Sealed : T.State → ObjectEnvelope → RemoteObjectRef → Type 0
  Sealed s e r = Stands T K D s e.object_id e.generation (encode D e) (sha256_hex D (encode D e)) r

  abbrev pub leaf_envelope : ℕ → ℕ → ManifestTreeLeaf → ObjectEnvelope
  leaf_envelope generation object_size leaf =
      envelope_of (object_id_for_index leaf.leaf_index) generation object_size (L.encode_leaf leaf)

  -- The leaves of a manifest stand under their references.
  pub data AllStand (s : T.State) (generation object_size : ℕ)
      : List ManifestTreeLeaf → List ManifestTreeLeafRef → Type 0 where
    no_leaf : AllStand s generation object_size [] []
    a_leaf :
        {leaf : ManifestTreeLeaf} {r : ManifestTreeLeafRef} {leaves : List ManifestTreeLeaf}
        {rs : List ManifestTreeLeafRef}
        → Sealed s (leaf_envelope generation object_size leaf) r.remote
        → AllStand s generation object_size leaves rs
        → AllStand s generation object_size (leaf ∷ leaves) (r ∷ rs)

  pub AllStand-Later :
      {s t : T.State} (generation object_size : ℕ) (leaves : List ManifestTreeLeaf)
      (rs : List ManifestTreeLeafRef)
      → AllStand s generation object_size leaves rs
      → Later T K s t
      → AllStand t generation object_size leaves rs
  AllStand-Later generation object_size [] [] no_leaf later = no_leaf
  AllStand-Later generation object_size (leaf ∷ leaves) (r ∷ rs) (a_leaf h hs) later =
      a_leaf (Stands-Later T K D h later) (AllStand-Later generation object_size leaves rs hs later)
  AllStand-Later generation object_size [] (r ∷ rs) h later = elim h [ ]
  AllStand-Later generation object_size (leaf ∷ leaves) [] h later = elim h [ ]

  pub send_envelope-Sealed :
      (e : ObjectEnvelope) (s : T.State) (r : RemoteObjectRef)
      → (send_envelope T D J L serde e s).0 ≡ ok r
      → Sealed (send_envelope T D J L serde e s).1 e r
  unfolding send_envelope
  send_envelope-Sealed e s r h =
      send_object-Stands T K D e.object_id e.generation (encode D e) (sha256_hex D (encode D e)) s r
        h

  -- Numbers without a message.
  abbrev pub AllFresh : T.State → List ℕ → Type 0
  AllFresh s [] = Unit {0}
  AllFresh s (id ∷ ids) = (K.message s id ≡ none) × AllFresh s ids

  AllFresh-earlier :
      (s t : T.State) (ids : List ℕ) → Later T K s t → AllFresh t ids → AllFresh s ids
  AllFresh-earlier s t [] later h = tt
  AllFresh-earlier s t (id ∷ ids) later (e, h) = (
    elim (Option-cases (K.message s id)) [
      | inl none_there ↦ none_there
      | inr (x, there) ↦ cc (later id x there, e)
    ],
    AllFresh-earlier s t ids later h,
  )

  AllFresh-Lacks :
      (t : T.State) (j : ℕ) (x : Message T.Media) (ids : List ℕ)
      → K.message t j ≡ some x
      → AllFresh t ids
      → Lacks j ids
  AllFresh-Lacks t j x [] there h = tt
  AllFresh-Lacks t j x (id ∷ ids) there (e, h) = (
    differs id j (λ same. cc (ap (K.message t) same, there, e)),
    AllFresh-Lacks t j x ids there h,
  )

  -- Leaves that were sent stand under references of different new messages.
  pub record SentLeaves (generation object_size : ℕ) (leaves : List ManifestTreeLeaf)
      (s t : T.State) (rs : List ManifestTreeLeafRef) : Type 0 where
    pub all : AllStand t generation object_size leaves rs
    pub fresh : AllFresh s (ids_of rs)
    pub distinct : Distinct (ids_of rs)

  send_envelope-fresh :
      (e : ObjectEnvelope) (s : T.State) (r : RemoteObjectRef)
      → (send_envelope T D J L serde e s).0 ≡ ok r
      → K.message s r.message_id ≡ none
  unfolding send_envelope
  send_envelope-fresh e s r h =
      send_object-fresh T K D e.object_id e.generation (encode D e) (sha256_hex D (encode D e)) s r
        h

  one_more_leaf :
      (generation object_size : ℕ) (leaf : ManifestTreeLeaf) (leaves : List ManifestTreeLeaf)
      (s t u : T.State) (r : ManifestTreeLeafRef) (rest : List ManifestTreeLeafRef)
      → Sealed t (leaf_envelope generation object_size leaf) r.remote
      → K.message s r.remote.message_id ≡ none
      → Later T K s t
      → Later T K t u
      → SentLeaves generation object_size leaves t u rest
      → SentLeaves generation object_size (leaf ∷ leaves) s u (r ∷ rest)
  one_more_leaf generation object_size leaf leaves s t u r rest there new later later₂ h = record {
    all = a_leaf (Stands-Later T K D there later₂) h.all;
    fresh = (new, AllFresh-earlier s t (ids_of rest) later h.fresh);
    distinct =
        (AllFresh-Lacks t r.remote.message_id _ (ids_of rest) there.found h.fresh, h.distinct);
  }

  pub send_leaves-SentLeaves :
      (generation object_size : ℕ) (leaves : List ManifestTreeLeaf) (s : T.State)
      (rs : List ManifestTreeLeafRef)
      → (send_leaves T D J L serde generation object_size leaves s).0 ≡ ok rs
      → SentLeaves generation object_size leaves s
          (send_leaves T D J L serde generation object_size leaves s).1
          rs
  unfolding send_leaves
  send_leaves-SentLeaves generation object_size [] s rs h =
      subst (SentLeaves generation object_size [] s s) (ok_injective h)
        (record { all = no_leaf; fresh = tt; distinct = tt })
  send_leaves-SentLeaves generation object_size (leaf ∷ leaves) s rs h =
      let e : ObjectEnvelope = leaf_envelope generation object_size leaf in
      let t : T.State = (send_envelope T D J L serde e s).1 in
      let (remote, sent, e₁) = stepped (send_envelope T D J L serde e) _ s rs h in
      let (rest, more, e₂) =
        stepped (send_leaves T D J L serde generation object_size leaves) _ t rs
          (sym (ap (λ o. o.0) e₁) ∙ h) in
      let u : T.State = (send_leaves T D J L serde generation object_size leaves t).1 in
      let r : ManifestTreeLeafRef = record {
        leaf_index = leaf.leaf_index;
        start_object_id = leaf.start_object_id;
        object_count = length leaf.objects;
        remote = remote;
      } in
      let whole : send_leaves T D J L serde generation object_size (leaf ∷ leaves) s
          ≡ (ok (r ∷ rest), u) =
        e₁ ∙ e₂ in
      let listed : r ∷ rest ≡ rs = ok_injective (sym (ap (λ o. o.0) whole) ∙ h) in
      subst (λ o. SentLeaves generation object_size (leaf ∷ leaves) s o.1 rs) (sym whole)
        (subst (SentLeaves generation object_size (leaf ∷ leaves) s u) listed (
          one_more_leaf generation object_size leaf leaves s t u r rest
            (send_envelope-Sealed e s remote sent) (send_envelope-fresh e s remote sent)
            (send_envelope-Safe T K D J L serde e s)
            (send_leaves-Safe T K D J L serde generation object_size leaves t)
            (send_leaves-SentLeaves generation object_size leaves t rest more)))

  -- What a sealed envelope decodes to under its reference.
  pub decodes_there :
      (s : T.State) (e : ObjectEnvelope) (r : RemoteObjectRef)
      → (h : Sealed s e r) → decode D (encode D e) r.object_id r.generation ≡ ok h.opened
  decodes_there s e r h =
      ap (λ q. decode D (encode D e) q.object_id q.generation) h.named ∙ h.decodes

  pub same_payload :
      (s : T.State) (e : ObjectEnvelope) (r : RemoteObjectRef)
      → (h : Sealed s e r) → h.opened.payload ≡ e.payload
  same_payload s e r h = payload-decode D e e.object_id e.generation h.opened h.decodes

  open_leaf-Sealed :
      (generation object_size : ℕ) (leaf : ManifestTreeLeaf) (r : ManifestTreeLeafRef) (s : T.State)
      → ReadsBack L
      → Sealed s (leaf_envelope generation object_size leaf) r.remote
      → open_leaf T D J L serde r (some (encode D (leaf_envelope generation object_size leaf)))
        ≡ ok leaf
  unfolding open_leaf
  open_leaf-Sealed generation object_size leaf r s reads h =
      let e : ObjectEnvelope = leaf_envelope generation object_size leaf in
      let sha : text_eq (sha256_hex D (encode D e)) r.remote.sha256 ≡ true =
        ap (λ q. text_eq (sha256_hex D (encode D e)) q.sha256) h.named
        ∙ text_eq_refl (sha256_hex D (encode D e)) in
      rw (decodes_there s e r.remote h, sha, same_payload s e r.remote h)
        (reads.decode_leaf-encode_leaf leaf)

  -- Sealed leaves are read, and decode to what they were.
  pub leaves_read :
      (generation object_size : ℕ) (leaves : List ManifestTreeLeaf) (rs : List ManifestTreeLeafRef)
      (s : T.State)
      → ReadsBack L
      → AllStand s generation object_size leaves rs
      → (found : List (Option (List ℕ))) × (read_all T K (map (K.message s) (ids_of rs)) ≡ ok found)
        × (open_leaves T D J L serde rs found ≡ ok leaves)
  unfolding open_leaves
  leaves_read generation object_size [] [] s reads no_leaf = ([], refl, refl)
  leaves_read generation object_size (leaf ∷ leaves) (r ∷ rs) s reads (a_leaf h hs) =
      let e : ObjectEnvelope = leaf_envelope generation object_size leaf in
      let (found, all, opens) = leaves_read generation object_size leaves rs s reads hs in
      let opened : open_leaf T D J L serde r (some (encode D e)) ≡ ok leaf =
        open_leaf-Sealed generation object_size leaf r s reads h in
      (some (encode D e) ∷ found, rw (h.found, h.same_file, all) refl, rw (opened, opens) refl)
  leaves_read generation object_size [] (r ∷ rs) s reads h = elim h [ ]
  leaves_read generation object_size (leaf ∷ leaves) [] s reads h = elim h [ ]
