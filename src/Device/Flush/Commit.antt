-- ===== src/Device/Flush/Commit.antt =====
-- The whole of a flush: whatever comes of it the disk stays, and after one that succeeds the manifest
-- and the channel are enough to have it back.
use telegram_block_device.Prelude.{
  ℕ, ◌*◌, ◌≡◌, refl, sym, ◌∙◌, inl, inr, Option, none, some, List, [], Result, ok, err,
  Option-cases, Result-cases, subst, Exec, gets, modify, ◌>>=◌, ◌>>◌,
}
use telegram_block_device.Prelude.Bytes.{Text}
use telegram_block_device.Prelude.Table.{row_at, IsAscending}
use telegram_block_device.Format.Digest.{Digest}
use telegram_block_device.Format.Manifest.{Manifest, ManifestJson}
use telegram_block_device.Errors.{Error}
use telegram_block_device.Cache.{
  fresh, dirty_object, clear_dirty_and_wal, replace_from_manifest, insert_objects,
}
use telegram_block_device.Block.{BlockMap}
use telegram_block_device.Backend.{RemoteBackend, ManifestCommitter, Channel}
use telegram_block_device.Disk.{bytes_from}
use telegram_block_device.Device.{
  BlockDevice, upload_all, commit, commit_with, in_store, flush_dirty, flush,
}
use telegram_block_device.Device
use telegram_block_device.Device.Holds.{Holds, in_dirty, in_zero, in_channel}
use telegram_block_device.Device.Represents.{Represents}
use telegram_block_device.Device.Flush.Moves.{
  Moves, Moves-refl, Holds-Moves, settled, settled-Moves,
}
use telegram_block_device.Device.Flush.Uploads.{Loops}
use telegram_block_device.Device.Fills.{Adds-Fills}
use telegram_block_device.Device.Holds.{Fills, Fills-refl}
use telegram_block_device.Device.Represents.{IsSized, Represents-Fills}

module _ (D : Digest) (J : ManifestJson) (B : RemoteBackend) (C : Channel B) where
  -- Every object may move.
  abbrev pub All : ℕ → Type 0
  All id = Unit {0}

  -- A committer that loses no message, whether it succeeds or fails.
  abbrev pub KeepsMessages : Option (ManifestCommitter B) → Type 0
  KeepsMessages none = Unit {0}
  KeepsMessages (some c) =
      (m : Manifest) (size sector object : ℕ) (s : B.State) (id : ℕ) (bytes : List ℕ)
      → C.message s id ≡ some bytes
      → C.message (c m size sector object s).1 id ≡ some bytes

  commit_with-Moves :
      (c : Option (ManifestCommitter B)) (d : BlockDevice B)
      → KeepsMessages c
      → Moves D B C All d (commit_with D J B c d).1
  commit_with-Moves none d safe = Moves-refl D B C All d
  commit_with-Moves (some c) d safe = record {
    same_map = refl;
    same_store = refl;
    same_committer = refl;
    same_entry = λ id _. refl;
    messages = λ id bytes h.
        safe d.manifest d.map.device_size d.map.logical_sector_size d.map.object_size d.backend id
          bytes h;
  }

  -- The tables of the manifest are not what a read looks at.
  abbrev tabled : BlockDevice B → BlockDevice B
  tabled d = record d { store = (replace_from_manifest D J d.manifest d.store).1 }

  tabled-Fills : (d : BlockDevice B) → Fills D B C d (tabled d)
  unfolding replace_from_manifest
  tabled-Fills d = elim (Option-cases (insert_objects d.manifest.objects [])) [
    | inl clash ↦ rw (clash, replace_from_manifest) (Fills-refl D B C d)
    | inr (rows, e) ↦
        rw (e, replace_from_manifest)
          (Adds-Fills D B C (record {
            same_map = refl;
            same_manifest = refl;
            same_rows = refl;
            same_limit = refl;
            same_committer = refl;
            same_dir = refl;
            messages = λ m bytes k. k;
            dirty_files = λ j q lt g. g.file;
            cache_files = λ j q lt g. g.cached;
          }))
  ]

  settled-tabled-Fills :
      (d : BlockDevice B) → Fills D B C (settled D B C d) (settled D B C (tabled d))
  unfolding replace_from_manifest clear_dirty_and_wal
  settled-tabled-Fills d = elim (Option-cases (insert_objects d.manifest.objects [])) [
    | inl clash ↦ rw (clash, replace_from_manifest) (Fills-refl D B C (settled D B C d))
    | inr (rows, e) ↦
        rw (e, replace_from_manifest)
          (Adds-Fills D B C (record {
            same_map = refl;
            same_manifest = refl;
            same_rows = refl;
            same_limit = refl;
            same_committer = refl;
            same_dir = refl;
            messages = λ m bytes k. k;
            dirty_files = λ j q lt g. g.file;
            cache_files = λ j q lt g. g.cached;
          }))
  ]

  -- A device started from a manifest, on an empty cache directory and a new database.
  abbrev pub restarted : BlockMap → Text → ℕ → BlockDevice B → BlockDevice B
  restarted m cache_dir now d =
      Device.new B m d.backend (fresh cache_dir (λ _. none) now) d.manifest

  restarted-Holds :
      (cache_dir : Text) (now : ℕ) (d : BlockDevice B) (id : ℕ) (p : List ℕ)
      → d.store.dirty_rows ≡ []
      → Holds D B C d id p
      → Holds D B C (restarted d.map cache_dir now d) id p
  unfolding dirty_object row_at
  restarted-Holds cache_dir now d id p clean (in_dirty h) = cc (rw clean at h.found)
  restarted-Holds cache_dir now d id p clean (in_zero h) = in_zero (record {
    entry = h.entry;
    undirtied = refl;
    found = h.found;
    is_zero = h.is_zero;
    zeros = h.zeros;
  })
  restarted-Holds cache_dir now d id p clean (in_channel h) = in_channel (record {
    entry = h.entry;
    remote = h.remote;
    sha = h.sha;
    bytes = h.bytes;
    undirtied = refl;
    found = h.found;
    not_zero = h.not_zero;
    has_remote = h.has_remote;
    has_sha = h.has_sha;
    named = h.named;
    kept = h.kept;
    cached = inl refl;
    is_sealed = h.is_sealed;
  })

  restarted-Represents :
      (m : BlockMap) (f : ℕ → ℕ) (cache_dir : Text) (now : ℕ) (d : BlockDevice B)
      → d.store.dirty_rows ≡ []
      → Represents D B C m f d
      → Represents D B C m f (restarted m cache_dir now d)
  restarted-Represents m f cache_dir now d clean r = record {
    same_map = refl;
    ascending = tt;
    each = λ id lt.
        subst
          (λ m'.
            Holds D B C (restarted m' cache_dir now d) id
              (bytes_from f (id * m.object_size) m.object_size))
          r.same_map (restarted-Holds cache_dir now d id _ clean (r.each id lt));
  }

  -- What a flush comes to: an error, or a device that can be started again from what it left behind.
  pub data Flushed (m : BlockMap) (f : ℕ → ℕ) (c : Option (ManifestCommitter B))
      (r : Result Error (Unit {0}) × BlockDevice B) : Type 0 where
    failed : (x : Error) → r.0 ≡ err x → Represents D B C m f r.1 → Flushed m f c r
    succeeded :
        r.0 ≡ ok tt
        → Represents D B C m f r.1
        → r.1.store.dirty_rows ≡ []
        → r.1.committer ≡ c
        → ((cache_dir : Text) (now : ℕ) → Represents D B C m f (restarted m cache_dir now r.1))
        → Flushed m f c r

  module _ (m : BlockMap) (f : ℕ → ℕ) (sized : IsSized m) where
    pub stopped :
        (c : Option (ManifestCommitter B)) (e : BlockDevice B) (x : Error)
        → Represents D B C m f e
        → Flushed m f c (err x, e)
    stopped c e x r = failed x refl r

    pub finished :
        (c : Option (ManifestCommitter B)) (e : BlockDevice B)
        → Represents D B C m f e
        → e.store.dirty_rows ≡ []
        → e.committer ≡ c
        → Flushed m f c (ok tt, e)
    finished c e r none_left same =
        succeeded refl r none_left same
          (λ cache_dir now. restarted-Represents m f cache_dir now e none_left r)

    -- Behind the loop: the commit, the tables, and the clearing of the dirty rows.
    module _ (d e : BlockDevice B) (l : Loops D J B C d [] e) (r : Represents D B C m f d)
        (safe : KeepsMessages d.committer) where
      moved : Moves D B C All e (commit D J B e).1
      unfolding commit
      moved = commit_with-Moves e.committer e (subst KeepsMessages (sym l.same_committer) safe)

      same : (commit D J B e).1.map ≡ m
      same = moved.same_map ∙ l.same_map ∙ r.same_map

      still_committed : Represents D B C m f (commit D J B e).1
      still_committed = record {
        same_map = same;
        ascending =
            subst (λ s. IsAscending (λ row. row.object_id) 0 s.dirty_rows)
              (sym (moved.same_store ∙ l.same_store)) r.ascending;
        each = λ id lt. Holds-Moves D B C moved id _ tt (l.keeps id _ (r.each id lt));
      }

      all_settled : Represents D B C m f (settled D B C (commit D J B e).1)
      unfolding row_at clear_dirty_and_wal
      all_settled = record {
        same_map = same;
        ascending = tt;
        each = λ id lt.
            Holds-Moves D B C (settled-Moves D B C moved) id _ tt
              (l.settles id _ (r.each id lt) refl);
      }

      abbrev clear : Exec Error (BlockDevice B) (Unit {0})
      clear = do
        d ← gets (λ d. d)
        in_store D J B (replace_from_manifest D J d.manifest)
        modify (λ d. record d { store = clear_dirty_and_wal d.store })

      clear-Flushed : Flushed m f d.committer (clear (commit D J B e).1)
      unfolding clear_dirty_and_wal
      clear-Flushed =
          elim (Result-cases
            (replace_from_manifest D J (commit D J B e).1.manifest (commit D J B e).1.store).0) [
              | inr (x, refused) ↦ rw refused (
                  stopped d.committer _ x (
                    Represents-Fills D B C m f sized still_committed
                      (tabled-Fills (commit D J B e).1)))
              | inl (_, taken) ↦ rw taken (
                  finished d.committer _
                    (Represents-Fills D B C m f sized all_settled
                      (settled-tabled-Fills (commit D J B e).1))
                    refl (moved.same_committer ∙ l.same_committer))
            ]

      pub commit-Flushed : Flushed m f d.committer ((commit D J B >> clear) e)
      commit-Flushed = elim (Result-cases (commit D J B e).0) [
        | inr (x, refused) ↦ rw refused (stopped d.committer _ x still_committed)
        | inl (_, taken) ↦ rw taken clear-Flushed
      ]
