-- ===== src/Device/Flush/Upload.antt =====
-- One upload of a flush: on success the object stands in the channel, and no other object changes.
use telegram_block_device.Prelude.{
  ℕ, ◌≡◌, ◌≢◌, refl, sym, ◌∙◌, ap, inl, inr, some, List, Result, ok, err, Option-cases,
  Result-cases, Bool-cases, some_eq,
}
use telegram_block_device.Prelude.Bytes.{text_eq, text_eq_refl}
use telegram_block_device.Prelude.Table.{row_at}
use telegram_block_device.Format.Digest.{Digest, sha256_hex}
use telegram_block_device.Format.Envelope.{decode}
use telegram_block_device.Format.Manifest.{RemoteObjectRef, ManifestObject, ManifestJson}
use telegram_block_device.Errors.{Error}
use telegram_block_device.Cache.{DirtyObject, object_path, dirty_object, clear_dirty_and_wal}
use telegram_block_device.Backend.{RemoteBackend, Channel}
use telegram_block_device.Device.{
  BlockDevice, find_object, entered, upload, record_upload, DeviceMetrics,
}
use telegram_block_device.Device.Holds.{InDirty, Holds, in_channel}
use telegram_block_device.Device.Flush.Moves.{
  find_object_id, find_object-replace_object_self, find_object-replace_object_ne, Moves, Moves-refl,
  settled,
}

module _ (D : Digest) (J : ManifestJson) (B : RemoteBackend) (C : Channel B) where
  abbrev pub Others : DirtyObject → ℕ → Type 0
  Others row id = id ≢ row.object_id

  -- What an upload of `row` comes to.
  pub record Uploads (row : DirtyObject) (d : BlockDevice B)
      (r : Result Error (Unit {0}) × BlockDevice B) : Type 0 where
    pub moves : Moves D B C (Others row) d r.1
    pub stored :
        r.0 ≡ ok tt
        → (p : List ℕ) (h : InDirty D B C d row.object_id p) → h.row ≡ row
        → Holds D B C (settled D B C r.1) row.object_id p

  failed :
      (row : DirtyObject) (d e : BlockDevice B) (x : Error)
      → Moves D B C (Others row) d e
      → Uploads row d (err x, e)
  failed row d e x m = record { moves = m; stored = λ h. cc }

  -- The device after the call of the backend.
  abbrev sent : DeviceMetrics → DirtyObject → List ℕ → BlockDevice B → BlockDevice B
  sent metrics row encoded d = record d {
    backend =
        (B.send_object row.object_id row.generation encoded (sha256_hex D encoded) d.backend).1;
    metrics = metrics;
  }

  abbrev stored_in :
      ManifestObject → DirtyObject → RemoteObjectRef → List ℕ → BlockDevice B → BlockDevice B
  stored_in old row remote encoded d =
      record (sent (record_upload d.elapsed d.metrics) row encoded d) {
        manifest = entered D J B old row remote (sha256_hex D encoded) d.manifest;
      }

  sent-Moves :
      (metrics : DeviceMetrics) (row : DirtyObject) (encoded : List ℕ) (d : BlockDevice B)
      → Moves D B C (Others row) d (sent metrics row encoded d)
  sent-Moves metrics row encoded d = record {
    same_map = refl;
    same_store = refl;
    same_committer = refl;
    same_entry = λ id ne. refl;
    messages = λ m bytes h. C.send_keeps row.object_id row.generation encoded _ d.backend m bytes h;
  }

  module _ (row : DirtyObject) (encoded : List ℕ) (remote : RemoteObjectRef) (old : ManifestObject)
      (d : BlockDevice B) (file : d.store.files row.cache_path ≡ some encoded)
      (accepted : (B.send_object row.object_id row.generation encoded
          (sha256_hex D encoded)
          d.backend).0
        ≡ ok remote)
      (found : find_object row.object_id d.manifest.objects ≡ some old) where
    named : old.object_id ≡ row.object_id
    named = find_object_id row.object_id d.manifest.objects old found

    stored-Moves : Moves D B C (Others row) d (stored_in old row remote encoded d)
    unfolding entered
    stored-Moves = record {
      same_map = refl;
      same_store = refl;
      same_committer = refl;
      same_entry =
          λ id ne. find_object-replace_object_ne id row.object_id _ d.manifest.objects ne named;
      messages = (sent-Moves d.metrics row encoded d).messages;
    }

    stored-Holds :
        (p : List ℕ) (h : InDirty D B C d row.object_id p)
        → h.row ≡ row
        → Holds D B C (settled D B C (stored_in old row remote encoded d)) row.object_id p
    unfolding entered clear_dirty_and_wal dirty_object row_at
    stored-Holds p h e = in_channel (record {
      entry = _;
      remote = remote;
      sha = sha256_hex D encoded;
      bytes = encoded;
      undirtied = refl;
      found = find_object-replace_object_self row.object_id _ old d.manifest.objects found named;
      not_zero = refl;
      has_remote = refl;
      has_sha = refl;
      named = C.send_names row.object_id row.generation encoded _ d.backend remote accepted;
      kept = C.send_stores row.object_id row.generation encoded _ d.backend remote accepted;
      cached = inr (ap d.store.files (sym path) ∙ file);
      is_sealed = record {
        envelope = h.is_sealed.envelope;
        checksum = text_eq_refl (sha256_hex D encoded);
        decodes =
            ap (λ r. decode D encoded row.object_id r.generation) (sym e)
            ∙ ap (λ b. decode D b row.object_id h.row.generation) (sym same)
            ∙ h.is_sealed.decodes;
        padded = h.is_sealed.padded;
      };
    })
      where
        path : row.cache_path ≡ object_path d.store.cache_dir row.object_id row.generation
        path =
            ap (λ r. r.cache_path) (sym e)
            ∙ h.path
            ∙ ap (λ r. object_path d.store.cache_dir row.object_id r.generation) e

        same : h.bytes ≡ encoded
        same = some_eq (sym h.file ∙ ap (λ r. d.store.files r.cache_path) e ∙ file)

  pub upload_lem : (row : DirtyObject) (d : BlockDevice B) → Uploads row d (upload D J B row d)
  unfolding upload
  upload_lem row d = elim (Option-cases (d.store.files row.cache_path)) [
    | inl missing ↦ rw missing (failed row d d _ (Moves-refl D B C _ d))
    | inr (encoded, file) ↦ elim (Result-cases (decode D encoded row.object_id row.generation)) [
      | inr (x, bad) ↦ rw (file, bad) (failed row d d _ (Moves-refl D B C _ d))
      | inl (envelope, good) ↦ elim (Bool-cases (text_eq (sha256_hex D encoded) row.sha256)) [
        | inr differs ↦ rw (file, good, differs) (failed row d d _ (Moves-refl D B C _ d))
        | inl checksum ↦
            elim (Result-cases
              (B.send_object row.object_id row.generation encoded (sha256_hex D encoded)
                d.backend).0) [
                  | inr (x, refused) ↦
                      rw (file, good, checksum, refused)
                        (failed row d _ _ (sent-Moves d.metrics row encoded d))
                  | inl (remote, accepted) ↦
                      elim (Option-cases (find_object row.object_id d.manifest.objects)) [
                        | inl unknown ↦
                            rw (file, good, checksum, accepted, unknown)
                              (failed row d _ _
                                (sent-Moves (record_upload d.elapsed d.metrics) row encoded d))
                        | inr (old, found) ↦
                            rw (file, good, checksum, accepted, found)
                              (record {
                                moves = stored-Moves row encoded remote old d file accepted found;
                                stored =
                                    λ _. stored-Holds row encoded remote old d file accepted found;
                              })
                      ]
                ]
      ]
    ]
  ]
