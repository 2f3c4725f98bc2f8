-- ===== src/Device/Prefetch.antt =====
-- The read-ahead changes no object: it fills the cache with what the channel holds.
use telegram_block_device.Prelude.{
  ℕ, ◌^◌, ◌<◌, ◌≡◌, refl, sym, ◌∙◌, ap, subst, ◌⊎◌, inl, inr, false, Option, none, some, List, [],
  ◌∷◌, arith, Bool-cases, ℕ-cases, some_eq,
}
use telegram_block_device.Prelude.Bytes.{Text, text_eq}
use telegram_block_device.Prelude.Table.{row_at}
use telegram_block_device.Format.Digest.{Digest, sha256_hex}
use telegram_block_device.Format.Manifest.{ManifestJson, ManifestObject}
use telegram_block_device.Cache.{
  LocalStore, DirtyObject, object_path, read_file, read_cache, write_cache, write_file,
  dirty_object,
}
use telegram_block_device.Cache.Paths.{write_file_ne, write_file_self}
use telegram_block_device.Backend.{RemoteBackend, Channel}
use telegram_block_device.Device.{BlockDevice, Wanted, find_object, is_dirty, push}
use telegram_block_device.Device.Holds.{InDirty, InChannel, Fills}
use telegram_block_device.Device.Fills.{Adds-Fills}

pub is_dirty-none :
    (id : ℕ) (rows : List DirtyObject)
    → is_dirty id rows ≡ false
    → row_at (λ row. row.object_id) id rows ≡ none
unfolding is_dirty row_at
is_dirty-none id [] h = refl
is_dirty-none id (row ∷ rows) h = ground (arith, is_dirty-none id rows)

-- A read of the cache touches its table alone.
pub record SameFiles (s t : LocalStore) : Type 0 where
  pub files : t.files ≡ s.files
  pub rows : t.dirty_rows ≡ s.dirty_rows
  pub dir : t.cache_dir ≡ s.cache_dir

read_file-SameFiles :
    (D : Digest) (id generation : ℕ) (sha : Text) (o : Option (List ℕ)) (s : LocalStore)
    → SameFiles s (read_file D id generation sha o s).1
unfolding read_file
read_file-SameFiles D id generation sha none s = record { files = refl; rows = refl; dir = refl }
read_file-SameFiles D id generation sha (some bytes) s =
    elim (Bool-cases (text_eq (sha256_hex D bytes) sha)) [
      | inl e ↦ rw e (record { files = refl; rows = refl; dir = refl })
      | inr e ↦ rw e (record { files = refl; rows = refl; dir = refl })
    ]

pub read_cache-SameFiles :
    (D : Digest) (id generation : ℕ) (sha : Text) (s : LocalStore)
    → SameFiles s (read_cache D id generation sha s).1
unfolding read_cache
read_cache-SameFiles D id generation sha s = read_file-SameFiles D id generation sha _ s

module _ (D : Digest) (J : ManifestJson) (B : RemoteBackend) (C : Channel B) where
  -- A step that leaves all that contents depend on.
  pub record Quiet (d e : BlockDevice B) : Type 0 where
    pub same_map : e.map ≡ d.map
    pub same_manifest : e.manifest ≡ d.manifest
    pub same_limit : e.max_dirty_objects ≡ d.max_dirty_objects
    pub same_committer : e.committer ≡ d.committer
    pub same_files : SameFiles d.store e.store
    pub messages :
        (m : ℕ) (bytes : List ℕ)
        → C.message d.backend m ≡ some bytes
        → C.message e.backend m ≡ some bytes

  pub Quiet-Fills : (d e : BlockDevice B) → Quiet d e → Fills D B C d e
  Quiet-Fills d e q = Adds-Fills D B C (record {
    same_map = q.same_map;
    same_manifest = q.same_manifest;
    same_rows = q.same_files.rows;
    same_limit = q.same_limit;
    same_committer = q.same_committer;
    same_dir = q.same_files.dir;
    messages = q.messages;
    dirty_files = λ j p lt h. ap (λ files. files h.row.cache_path) q.same_files.files ∙ h.file;
    cache_files = λ j p lt h. rw q.same_files.files h.cached;
  })

  -- An entry to fetch is the manifest's, and no write of its object waits.
  pub record IsWanted (d : BlockDevice B) (w : Wanted) : Type 0 where
    pub entry : ManifestObject
    pub fits : w.object_id < 2 ^ 64
    pub undirtied : dirty_object d.store w.object_id ≡ none
    pub found : find_object w.object_id d.manifest.objects ≡ some entry
    pub has_remote : entry.remote ≡ some w.remote
    pub generation : entry.generation ≡ w.generation

  abbrev pub AllWanted : BlockDevice B → List Wanted → Type 0
  AllWanted d [] = Unit {0}
  AllWanted d (w ∷ ws) = IsWanted d w × AllWanted d ws

  pub IsWanted-Fills :
      (d e : BlockDevice B) (w : Wanted) → Fills D B C d e → IsWanted d w → IsWanted e w
  unfolding dirty_object
  IsWanted-Fills d e w a i = record {
    entry = i.entry;
    fits = i.fits;
    undirtied = ap (row_at (λ row. row.object_id) w.object_id) a.same_rows ∙ i.undirtied;
    found = ap (λ m. find_object w.object_id m.objects) a.same_manifest ∙ i.found;
    has_remote = i.has_remote;
    generation = i.generation;
  }

  pub AllWanted-Fills :
      (d e : BlockDevice B) (ws : List Wanted) → Fills D B C d e → AllWanted d ws → AllWanted e ws
  AllWanted-Fills d e [] a i = tt
  AllWanted-Fills d e (w ∷ ws) a i = (IsWanted-Fills d e w a i.0, AllWanted-Fills d e ws a i.1)

  pub AllWanted-push :
      (d : BlockDevice B) (ws : List Wanted) (o : Option Wanted)
      → AllWanted d ws
      → ((w : Wanted) → o ≡ some w → IsWanted d w)
      → AllWanted d (push D J B o ws)
  AllWanted-push d ws none all new = all
  AllWanted-push d [] (some w) all new = (new w refl, tt)
  AllWanted-push d (v ∷ ws) (some w) all new = (all.0, AllWanted-push d ws (some w) all.1 new)

  kept_dirty :
      (d : BlockDevice B) (w : Wanted) (bytes : List ℕ)
      → IsWanted d w
      → (j : ℕ) (q : List ℕ) → j < 2 ^ 64
      → (h : InDirty D B C d j q)
      → write_file
          (object_path d.store.cache_dir w.object_id w.generation)
          bytes
          d.store.files
          h.row.cache_path
        ≡ some h.bytes
  kept_dirty d w bytes i j q lt h = elim (ℕ-cases w.object_id j) [
    | inl e ↦ cc (ap (dirty_object d.store) e, h.found, i.undirtied)
    | inr n ↦ rw h.path (
        write_file_ne d.store.cache_dir w.object_id w.generation j h.row.generation bytes
          d.store.files i.fits lt n
        ∙ (rw h.path at h.file))
  ]

  same_message :
      (d : BlockDevice B) (w : Wanted) (bytes : List ℕ) (q : List ℕ)
      → IsWanted d w
      → C.message d.backend w.remote.message_id ≡ some bytes
      → (h : InChannel D B C d w.object_id q)
      → (h.entry.generation ≡ w.generation) × (bytes ≡ h.bytes)
  same_message d w bytes q i k h = (
    ap (λ e. e.generation) entries ∙ i.generation,
    some_eq (sym k ∙ ap (λ r. C.message d.backend r.message_id) remotes ∙ h.kept),
  )
    where
      entries : h.entry ≡ i.entry
      entries = some_eq (sym h.found ∙ i.found)

      remotes : w.remote ≡ h.remote
      remotes = some_eq (sym i.has_remote ∙ ap (λ e. e.remote) (sym entries) ∙ h.has_remote)

  abbrev AfterKeep :
      (d : BlockDevice B) (w : Wanted) (bytes : List ℕ) (j : ℕ) (q : List ℕ)
      → InChannel D B C d j q
      → Type 0
  AfterKeep d w bytes j q h =
      (write_file (object_path d.store.cache_dir w.object_id w.generation) bytes d.store.files
          (object_path d.store.cache_dir j h.entry.generation)
        ≡ none)
      ⊎ (write_file (object_path d.store.cache_dir w.object_id w.generation) bytes d.store.files
            (object_path d.store.cache_dir j h.entry.generation)
          ≡ some h.bytes)

  kept_self :
      (d : BlockDevice B) (w : Wanted) (bytes : List ℕ) (q : List ℕ)
      → IsWanted d w
      → C.message d.backend w.remote.message_id ≡ some bytes
      → (h : InChannel D B C d w.object_id q) → AfterKeep d w bytes w.object_id q h
  kept_self d w bytes q i k h =
      let (generation, same) = same_message d w bytes q i k h in
      inr (rw (generation, ← same) (write_file_self _ bytes d.store.files))

  kept_cache :
      (d : BlockDevice B) (w : Wanted) (bytes : List ℕ)
      → IsWanted d w
      → C.message d.backend w.remote.message_id ≡ some bytes
      → (j : ℕ) (q : List ℕ) → j < 2 ^ 64
      → (h : InChannel D B C d j q) → AfterKeep d w bytes j q h
  kept_cache d w bytes i k j q lt h = elim (ℕ-cases w.object_id j) [
    | inl e ↦
        subst (λ j. (h : InChannel D B C d j q) → AfterKeep d w bytes j q h) e
          (kept_self d w bytes q i k) h
    | inr n ↦
        rw
          (write_file_ne d.store.cache_dir w.object_id w.generation j h.entry.generation bytes
            d.store.files i.fits lt n)
          h.cached
  ]

  pub keep_one :
      (d : BlockDevice B) (w : Wanted) (bytes : List ℕ)
      → IsWanted d w
      → C.message d.backend w.remote.message_id ≡ some bytes
      → Fills D B C d
          (record d { store = (write_cache D w.object_id w.generation bytes false d.store).1 })
  unfolding write_cache
  keep_one d w bytes i k = Adds-Fills D B C (record {
    same_map = refl;
    same_manifest = refl;
    same_rows = refl;
    same_limit = refl;
    same_committer = refl;
    same_dir = refl;
    messages = λ m b h. h;
    dirty_files = kept_dirty d w bytes i;
    cache_files = kept_cache d w bytes i k;
  })
