-- ===== src/Device/Flush/Complete.antt =====
-- What a flush makes of the manifest, and that it has been committed.
use telegram_block_device.Prelude.{
  ℕ, suc, ◌+◌, ◌≡◌, refl, sym, ◌∙◌, ap, inl, inr, some, List, [], ◌∷◌, Result, ok, err, ◌>>=◌, ◌>>◌,
  continue, length, Option-cases, Result-cases, Bool-cases, stepped, subst, lift, ok_or, gets,
  modify, ◌==◌, ==_iff,
}
use telegram_block_device.Prelude.Bytes.{Text, text_eq}
use telegram_block_device.Format.Digest.{Digest, sha256_hex}
use telegram_block_device.Format.Envelope.{decode}
use telegram_block_device.Format.Manifest.{RemoteObjectRef, ManifestObject, Manifest, ManifestJson}
use telegram_block_device.Format.Tree.RoundTrip.{IsNumbered, IsComplete}
use telegram_block_device.Errors.{Error, manifest_missing_object}
use telegram_block_device.Cache.{
  DirtyObject, dirty_objects, clear_dirty_and_wal, replace_from_manifest,
}
use telegram_block_device.Backend.{RemoteBackend, ManifestCommitter}
use telegram_block_device.Device.{
  in_store, record_upload, BlockDevice, find_object, replace_object, entered, upload, upload_all,
  flush_dirty, flush, Action, commit, commit_with, next_generation, max_generation,
}
use telegram_block_device.Device.Flush.Moves.{find_object_id}

IsNumbered-replace_object :
    (i id : ℕ) (entry : ManifestObject) (os : List ManifestObject)
    → entry.object_id ≡ id
    → IsNumbered i os
    → IsNumbered i (replace_object id entry os)
unfolding replace_object
IsNumbered-replace_object i id entry [] e n = tt
IsNumbered-replace_object i id entry (o ∷ os) e (here, n) = elim (Bool-cases (o.object_id == id)) [
  | inl same ↦ rw same (e ∙ sym ((==_iff o.object_id id).0 same) ∙ here, n)
  | inr other ↦ rw other (here, IsNumbered-replace_object (i + 1) id entry os e n)
]

length-replace_object :
    (id : ℕ) (entry : ManifestObject) (os : List ManifestObject)
    → length (replace_object id entry os) ≡ length os
unfolding replace_object
length-replace_object id entry [] = refl
length-replace_object id entry (o ∷ os) = elim (Bool-cases (o.object_id == id)) [
  | inl same ↦ rw same refl
  | inr other ↦ rw other (ap suc (length-replace_object id entry os))
]

module _ (D : Digest) (J : ManifestJson) (B : RemoteBackend) where
  -- The manifest stays complete, and the committer and the sizes are the same.
  pub record Tidy (d e : BlockDevice B) : Type 0 where
    pub complete : IsComplete d.manifest → IsComplete e.manifest
    pub same_committer : e.committer ≡ d.committer

  abbrev IsTidy : {A : Type 0} → Action D J B A → Type 0
  IsTidy m = (d : BlockDevice B) → Tidy d (m d).1

  Tidy-trans : {d e g : BlockDevice B} → Tidy d e → Tidy e g → Tidy d g
  Tidy-trans p q = record {
    complete = λ c. q.complete (p.complete c);
    same_committer = q.same_committer ∙ p.same_committer;
  }

  unchanged : {d e : BlockDevice B} → e.manifest ≡ d.manifest → e.committer ≡ d.committer → Tidy d e
  unchanged m c = record { complete = subst IsComplete (sym m); same_committer = c }

  both :
      {A A' : Type 0} (d : BlockDevice B) (r : Result Error A × BlockDevice B)
      (f : A → Action D J B A')
      → Tidy d r.1
      → ((a : A) → IsTidy (f a))
      → Tidy d (continue r.0 f r.1).1
  both d (ok a, e) f h g = Tidy-trans h (g a e)
  both d (err x, e) f h g = h

  chain :
      {A A' : Type 0} (m : Action D J B A) (f : A → Action D J B A')
      → IsTidy m
      → ((a : A) → IsTidy (f a))
      → IsTidy (m >>= f)
  chain m f h g d = both d (m d) f (h d) g

  entered-IsComplete :
      (old : ManifestObject) (row : DirtyObject) (remote : RemoteObjectRef) (sha : Text)
      (m : Manifest)
      → old.object_id ≡ row.object_id
      → IsComplete m
      → IsComplete (entered D J B old row remote sha m)
  unfolding entered
  entered-IsComplete old row remote sha m named c = record {
    magic = c.magic;
    format_version = c.format_version;
    object_count = c.object_count ∙ sym (length-replace_object row.object_id _ m.objects);
    numbered = IsNumbered-replace_object 0 row.object_id _ m.objects named c.numbered;
  }

  -- The end of an upload.
  abbrev enter : DirtyObject → RemoteObjectRef → Text → Action D J B (Unit {0})
  enter row remote sha = do
    d ← gets (λ d. d)
    old ← lift (
        ok_or (find_object row.object_id d.manifest.objects)
          (manifest_missing_object row.object_id))
    modify (λ d. record d { manifest = entered D J B old row remote sha d.manifest })

  enter-IsTidy :
      (row : DirtyObject) (remote : RemoteObjectRef) (sha : Text) → IsTidy (enter row remote sha)
  enter-IsTidy row remote sha d =
      elim (Option-cases (find_object row.object_id d.manifest.objects)) [
        | inl missing ↦ rw missing (unchanged refl refl)
        | inr (old, found) ↦ rw found (record {
          complete =
              entered-IsComplete old row remote sha d.manifest
                (find_object_id row.object_id d.manifest.objects old found);
          same_committer = refl;
        })
      ]

  upload-IsTidy : (row : DirtyObject) → IsTidy (upload D J B row)
  unfolding upload
  upload-IsTidy row d = elim (Option-cases (d.store.files row.cache_path)) [
    | inl missing ↦ rw missing (unchanged refl refl)
    | inr (encoded, file) ↦ elim (Result-cases (decode D encoded row.object_id row.generation)) [
      | inr (x, bad) ↦ rw (file, bad) (unchanged refl refl)
      | inl (envelope, good) ↦ elim (Bool-cases (text_eq (sha256_hex D encoded) row.sha256)) [
        | inr differs ↦ rw (file, good, differs) (unchanged refl refl)
        | inl same ↦
            let sha : Text = sha256_hex D encoded in
            let r : Result Error RemoteObjectRef × B.State =
              B.send_object row.object_id row.generation encoded sha d.backend in
            elim (Result-cases r.0) [
              | inr (x, refused) ↦ rw (file, good, same, refused) (unchanged refl refl)
              | inl (remote, sent) ↦
                  let e : BlockDevice B = record d {
                    backend = r.1;
                    metrics = record_upload d.elapsed d.metrics;
                  } in
                  rw (file, good, same, sent)
                    (Tidy-trans {d = d} {e = e} (unchanged refl refl)
                      (enter-IsTidy row remote sha e))
            ]
      ]
    ]
  ]

  upload_all-IsTidy : (rows : List DirtyObject) → IsTidy (upload_all D J B rows)
  unfolding upload_all
  upload_all-IsTidy [] d = unchanged refl refl
  upload_all-IsTidy (row ∷ rows) d =
      chain (upload D J B row) (λ _. upload_all D J B rows) (upload-IsTidy row)
        (λ _. upload_all-IsTidy rows) d

  -- The manifest of the device after it, which is complete if the one before was, has been committed.
  pub record IsCommitted (c : ManifestCommitter B) (d e : BlockDevice B) : Type 0 where
    pub before : B.State
    pub returned :
        (c e.manifest e.map.device_size e.map.logical_sector_size e.map.object_size before).0
        ≡ ok tt
    pub after :
        (c e.manifest e.map.device_size e.map.logical_sector_size e.map.object_size before).1
        ≡ e.backend
    pub complete : IsComplete d.manifest → IsComplete e.manifest

  -- The end of a flush.
  abbrev settle : Action D J B (Unit {0})
  settle = do
    d ← gets (λ d. d)
    in_store D J B (replace_from_manifest D J d.manifest)
    modify (λ d. record d { store = clear_dirty_and_wal d.store })

  flush_dirty-IsCommitted :
      (row : DirtyObject) (rows : List DirtyObject) (c : ManifestCommitter B) (d : BlockDevice B)
      → d.committer ≡ some c
      → (flush_dirty D J B (row ∷ rows) d).0 ≡ ok tt
      → IsCommitted c d (flush_dirty D J B (row ∷ rows) d).1
  unfolding flush_dirty commit
  flush_dirty-IsCommitted row rows c d has h =
      let d₁ : BlockDevice B = record d {
        manifest = record d.manifest {
          generation = next_generation D J B (max_generation (row ∷ rows)) d.manifest;
        };
      } in
      let (_, uploaded, e₁) = stepped (upload_all D J B (row ∷ rows)) _ d₁ tt h in
      let d₂ : BlockDevice B = (upload_all D J B (row ∷ rows) d₁).1 in
      let tidy : Tidy d₁ d₂ = upload_all-IsTidy (row ∷ rows) d₁ in
      let (_, committed, e₂) = stepped (commit D J B) _ d₂ tt (sym (ap (λ o. o.0) e₁) ∙ h) in
      let held : commit D J B d₂ ≡ commit_with D J B (some c) d₂ =
        ap (λ k. commit_with D J B k d₂) (tidy.same_committer ∙ has) in
      let d₃ : BlockDevice B = (commit_with D J B (some c) d₂).1 in
      let settled : flush_dirty D J B (row ∷ rows) d ≡ settle d₃ =
        e₁ ∙ e₂ ∙ ap (λ o. settle o.1) held in
      let (_, entered, e₄) =
        stepped (in_store D J B (replace_from_manifest D J d₃.manifest))
          (λ _. modify (λ d. record d { store = clear_dirty_and_wal d.store })) d₃ tt
          (sym (ap (λ o. o.0) settled) ∙ h) in
      subst (λ o. IsCommitted c d o.1) (sym (settled ∙ e₄))
        (record {
          before = d₂.backend;
          returned = ap (λ o. o.0) (sym held) ∙ committed;
          after = refl;
          complete = λ k. tidy.complete (record {
            magic = k.magic;
            format_version = k.format_version;
            object_count = k.object_count;
            numbered = k.numbered;
          });
        })

  -- A flush of a device with a dirty object that succeeds has committed the manifest that it leaves, by
  -- the last call of the backend; and it leaves a complete manifest complete.
  pub flush-IsCommitted :
      (row : DirtyObject) (rows : List DirtyObject) (c : ManifestCommitter B) (d : BlockDevice B)
      → d.store.dirty_rows ≡ row ∷ rows
      → d.committer ≡ some c
      → (flush D J B d).0 ≡ ok tt
      → IsCommitted c d (flush D J B d).1
  unfolding flush dirty_objects
  flush-IsCommitted row rows c d dirty has =
      subst (λ rs. (flush_dirty D J B rs d).0 ≡ ok tt → IsCommitted c d (flush_dirty D J B rs d).1)
        (sym dirty) (flush_dirty-IsCommitted row rows c d has)
