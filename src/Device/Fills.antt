-- ===== src/Device/Fills.antt =====
-- Steps that only add to the cache and to the channel change no object.
use telegram_block_device.Prelude.{
  ℕ, ◌^◌, ◌<◌, ◌≡◌, sym, ◌∙◌, ap, ◌⊎◌, inl, inr, Option, none, some, List, some_eq, ℕ-cases, subst,
}
use telegram_block_device.Prelude.Bytes.{Text}
use telegram_block_device.Prelude.Table.{row_at}
use telegram_block_device.Format.Digest.{Digest}
use telegram_block_device.Cache.{object_path, write_file, dirty_object}
use telegram_block_device.Cache.Paths.{write_file_ne, write_file_self}
use telegram_block_device.Backend.{RemoteBackend, Channel}
use telegram_block_device.Device.{BlockDevice, find_object}
use telegram_block_device.Device.Holds.{
  InDirty, InChannel, Holds, in_dirty, in_zero, in_channel, Fills,
}

module _ (D : Digest) (B : RemoteBackend) (C : Channel B) where
  -- What such a step must leave: everything but the cache of objects that the channel keeps.
  pub record Adds (d e : BlockDevice B) : Type 0 where
    pub same_map : e.map ≡ d.map
    pub same_manifest : e.manifest ≡ d.manifest
    pub same_rows : e.store.dirty_rows ≡ d.store.dirty_rows
    pub same_limit : e.max_dirty_objects ≡ d.max_dirty_objects
    pub same_committer : e.committer ≡ d.committer
    pub same_dir : e.store.cache_dir ≡ d.store.cache_dir
    pub messages :
        (m : ℕ) (bytes : List ℕ)
        → C.message d.backend m ≡ some bytes
        → C.message e.backend m ≡ some bytes
    pub dirty_files :
        (id : ℕ) (p : List ℕ)
        → id < 2 ^ 64
        → (h : InDirty D B C d id p) → e.store.files h.row.cache_path ≡ some h.bytes
    pub cache_files :
        (id : ℕ) (p : List ℕ)
        → id < 2 ^ 64
        → (h : InChannel D B C d id p)
        → (e.store.files (object_path d.store.cache_dir id h.entry.generation) ≡ none)
          ⊎ (e.store.files (object_path d.store.cache_dir id h.entry.generation) ≡ some h.bytes)

  module _ {d e : BlockDevice B} (a : Adds d e) where
    same_row : (id : ℕ) → dirty_object e.store id ≡ dirty_object d.store id
    unfolding dirty_object
    same_row id = ap (row_at (λ row. row.object_id) id) a.same_rows

    same_entry : (id : ℕ) → find_object id e.manifest.objects ≡ find_object id d.manifest.objects
    same_entry id = ap (λ m. find_object id m.objects) a.same_manifest

    keeps_each : (id : ℕ) (p : List ℕ) → id < 2 ^ 64 → Holds D B C d id p → Holds D B C e id p
    keeps_each id p lt (in_dirty h) = in_dirty (record {
      row = h.row;
      bytes = h.bytes;
      found = same_row id ∙ h.found;
      path = rw a.same_dir h.path;
      file = a.dirty_files id p lt h;
      is_sealed = rw a.same_map h.is_sealed;
    })
    keeps_each id p lt (in_zero h) = in_zero (record {
      entry = h.entry;
      undirtied = same_row id ∙ h.undirtied;
      found = same_entry id ∙ h.found;
      is_zero = h.is_zero;
      zeros = rw a.same_map h.zeros;
    })
    keeps_each id p lt (in_channel h) = in_channel (record {
      entry = h.entry;
      remote = h.remote;
      sha = h.sha;
      bytes = h.bytes;
      undirtied = same_row id ∙ h.undirtied;
      found = same_entry id ∙ h.found;
      not_zero = h.not_zero;
      has_remote = h.has_remote;
      has_sha = h.has_sha;
      named = h.named;
      kept = a.messages h.remote.message_id h.bytes h.kept;
      cached = rw a.same_dir (a.cache_files id p lt h);
      is_sealed = rw a.same_map h.is_sealed;
    })

    pub Adds-Fills : Fills D B C d e
    Adds-Fills = record {
      same_map = a.same_map;
      same_manifest = a.same_manifest;
      same_rows = a.same_rows;
      same_limit = a.same_limit;
      same_committer = a.same_committer;
      same_dir = a.same_dir;
      keeps = keeps_each;
    }

  -- Two accounts of one object in the channel agree on its bytes.
  pub same_bytes :
      (d : BlockDevice B) (id : ℕ) (p q : List ℕ) (g : InChannel D B C d id p)
      (h : InChannel D B C d id q)
      → (h.entry ≡ g.entry) × (h.bytes ≡ g.bytes)
  same_bytes d id p q g h =
      (entries, some_eq (sym h.kept ∙ ap (λ r. C.message d.backend r.message_id) remotes ∙ g.kept))
    where
      entries : h.entry ≡ g.entry
      entries = some_eq (sym h.found ∙ g.found)

      remotes : h.remote ≡ g.remote
      remotes = some_eq (sym h.has_remote ∙ ap (λ e. e.remote) entries ∙ g.has_remote)

  -- The files after the cache took in the bytes of an object of the channel.
  abbrev filled :
      (d : BlockDevice B) (id : ℕ) (p : List ℕ) → InChannel D B C d id p → Text → Option (List ℕ)
  filled d id p g =
      write_file (object_path d.store.cache_dir id g.entry.generation) g.bytes d.store.files

  pub fill_dirty :
      (d : BlockDevice B) (id : ℕ) (p : List ℕ) (g : InChannel D B C d id p)
      → id < 2 ^ 64
      → (j : ℕ) (q : List ℕ) → j < 2 ^ 64
      → (h : InDirty D B C d j q) → filled d id p g h.row.cache_path ≡ some h.bytes
  fill_dirty d id p g lt j q lt' h = elim (ℕ-cases id j) [
    | inl e ↦ cc (ap (dirty_object d.store) e, h.found, g.undirtied)
    | inr n ↦ rw h.path (
        write_file_ne d.store.cache_dir id g.entry.generation j h.row.generation g.bytes
          d.store.files lt lt' n
        ∙ (rw h.path at h.file))
  ]

  abbrev HasFile :
      (d : BlockDevice B) (id : ℕ) (p : List ℕ)
      → InChannel D B C d id p
      → (j : ℕ) (q : List ℕ) → InChannel D B C d j q
      → Type 0
  HasFile d id p g j q h =
      (filled d id p g (object_path d.store.cache_dir j h.entry.generation) ≡ none)
      ⊎ (filled d id p g (object_path d.store.cache_dir j h.entry.generation) ≡ some h.bytes)

  fill_self :
      (d : BlockDevice B) (id : ℕ) (p q : List ℕ) (g : InChannel D B C d id p)
      (h : InChannel D B C d id q)
      → HasFile d id p g id q h
  fill_self d id p q g h =
      let (entries, bytes) = same_bytes d id p q g h in
      inr (rw (entries, bytes) (write_file_self _ g.bytes d.store.files))

  pub fill_cache :
      (d : BlockDevice B) (id : ℕ) (p : List ℕ) (g : InChannel D B C d id p)
      → id < 2 ^ 64
      → (j : ℕ) (q : List ℕ) → j < 2 ^ 64
      → (h : InChannel D B C d j q) → HasFile d id p g j q h
  fill_cache d id p g lt j q lt' h = elim (ℕ-cases id j) [
    | inl e ↦
        subst (λ j. (h : InChannel D B C d j q) → HasFile d id p g j q h) e (fill_self d id p q g) h
    | inr n ↦
        rw
          (write_file_ne d.store.cache_dir id g.entry.generation j h.entry.generation g.bytes
            d.store.files lt lt' n)
          h.cached
  ]
