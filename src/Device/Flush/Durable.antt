-- ===== src/Device/Flush/Durable.antt =====
-- `flush`: the disk stays whatever comes of it, and after success the manifest and the channel have it.
use telegram_block_device.Prelude.{
  ℕ, ◌≡◌, refl, sym, ◌∙◌, ap, inl, inr, List, [], ◌∷◌, Result-cases, subst,
}
use telegram_block_device.Prelude.Table.{row_at, IsAscending}
use telegram_block_device.Format.Digest.{Digest}
use telegram_block_device.Format.Manifest.{ManifestJson}
use telegram_block_device.Cache.{DirtyObject, dirty_object, dirty_objects}
use telegram_block_device.Block.{BlockMap}
use telegram_block_device.Backend.{RemoteBackend, Channel}
use telegram_block_device.Device.{
  BlockDevice, upload_all, flush_dirty, flush, next_generation, max_generation,
}
use telegram_block_device.Device.Represents.{Represents, IsSized}
use telegram_block_device.Device.Flush.Moves.{Moves, Holds-Moves, settled-Moves, Holds-settled}
use telegram_block_device.Device.Flush.Uploads.{Loops, Looped, upload_all_lem}
use telegram_block_device.Device.Flush.Commit.{
  All, KeepsMessages, Flushed, stopped, finished, commit-Flushed,
}

module _ (D : Digest) (J : ManifestJson) (B : RemoteBackend) (C : Channel B) where
  -- The device when the loop begins: the manifest has its new generation.
  abbrev begun : List DirtyObject → BlockDevice B → BlockDevice B
  begun rows d = record d {
    manifest = record d.manifest {
      generation = next_generation D J B (max_generation rows) d.manifest;
    };
  }

  begun-Moves :
      (rows : List DirtyObject) (d : BlockDevice B) → Moves D B C (All D J B C) d (begun rows d)
  begun-Moves rows d = record {
    same_map = refl;
    same_store = refl;
    same_committer = refl;
    same_entry = λ id _. refl;
    messages = λ m bytes h. h;
  }

  begun-Loops :
      (rows : List DirtyObject) (d : BlockDevice B)
      → d.store.dirty_rows ≡ rows
      → Loops D J B C d rows (begun rows d)
  unfolding dirty_object
  begun-Loops rows d e = record {
    same_map = refl;
    same_store = refl;
    same_committer = refl;
    keeps = λ id p h. Holds-Moves D B C (begun-Moves rows d) id p tt h;
    settles = λ id p h clear.
        Holds-Moves D B C (settled-Moves D B C (begun-Moves rows d)) id p tt
          (Holds-settled D B C d id p (ap (row_at (λ r. r.object_id) id) e ∙ clear) h);
  }

  module _ (m : BlockMap) (f : ℕ → ℕ) (sized : IsSized m) (d : BlockDevice B)
      (r : Represents D B C m f d) (safe : KeepsMessages D J B C d.committer) where
    flush_dirty_lem :
        (rows : List DirtyObject)
        → d.store.dirty_rows ≡ rows
        → IsAscending (λ r. r.object_id) 0 rows
        → Flushed D J B C m f d.committer (flush_dirty D J B rows d)
    unfolding flush_dirty dirty_object
    flush_dirty_lem [] e a = finished D J B C m f sized d.committer d r e refl
    flush_dirty_lem (row ∷ rows) e a =
        elim (Result-cases (upload_all D J B (row ∷ rows) (begun (row ∷ rows) d)).0) [
          | inr (x, failed) ↦ rw failed (
              stopped D J B C m f sized d.committer _ x (record {
                same_map = looped.same_map ∙ r.same_map;
                ascending =
                    subst (λ s. IsAscending (λ row. row.object_id) 0 s.dirty_rows)
                      (sym looped.same_store) r.ascending;
                each = λ id lt. looped.keeps id _ (r.each id lt);
              }))
          | inl (_, done) ↦ rw done (commit-Flushed D J B C m f sized d _ (looped.done done) r safe)
        ]
      where
        looped : Looped D J B C d (upload_all D J B (row ∷ rows) (begun (row ∷ rows) d))
        looped =
            upload_all_lem D J B C d 0 (row ∷ rows) (begun (row ∷ rows) d) a
              (λ id r h. ap (row_at (λ r. r.object_id) id) e ∙ h) (begun-Loops (row ∷ rows) d e)

    -- A flush of a device that represents a disk, of sizes in their range, and whose committer loses no
    -- message: whether it succeeds or fails, the device represents the same disk. If it succeeds, no
    -- row is dirty, the committer is the same, and a device that is started from the manifest and the
    -- channel with an empty cache represents the disk as well.
    pub flush_lem : Flushed D J B C m f d.committer (flush D J B d)
    unfolding flush dirty_objects
    flush_lem = flush_dirty_lem d.store.dirty_rows refl r.ascending
