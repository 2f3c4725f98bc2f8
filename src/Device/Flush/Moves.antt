-- ===== src/Device/Flush/Moves.antt =====
-- Steps of a flush: what they leave as it was, and the device that a flush ends in.
use telegram_block_device.Prelude.{ℕ, ◌≡◌, ◌≢◌, refl, ◌∙◌, ap, none, some, List, [], ◌∷◌, arith}
use telegram_block_device.Prelude.Table.{row_at}
use telegram_block_device.Format.Digest.{Digest}
use telegram_block_device.Format.Manifest.{ManifestObject}
use telegram_block_device.Cache.{dirty_object, clear_dirty_and_wal}
use telegram_block_device.Backend.{RemoteBackend, Channel}
use telegram_block_device.Device.{BlockDevice, find_object, replace_object}
use telegram_block_device.Device.Holds.{InDirty, Holds, in_dirty, in_zero, in_channel}

pub find_object_id :
    (id : ℕ) (os : List ManifestObject) (o : ManifestObject)
    → find_object id os ≡ some o
    → o.object_id ≡ id
unfolding find_object
find_object_id id [] o h = ground arith
find_object_id id (x ∷ xs) o h = ground (arith, find_object_id id xs o)

pub find_object-replace_object_self :
    (id : ℕ) (entry old : ManifestObject) (os : List ManifestObject)
    → find_object id os ≡ some old
    → entry.object_id ≡ id
    → find_object id (replace_object id entry os) ≡ some entry
unfolding find_object replace_object
find_object-replace_object_self id entry old [] h e = ground arith
find_object-replace_object_self id entry old (x ∷ xs) h e =
    ground (arith, find_object-replace_object_self id entry old xs)

pub find_object-replace_object_ne :
    (id k : ℕ) (entry : ManifestObject) (os : List ManifestObject)
    → id ≢ k
    → entry.object_id ≡ k
    → find_object id (replace_object k entry os) ≡ find_object id os
unfolding find_object replace_object
find_object-replace_object_ne id k entry [] ne e = refl
find_object-replace_object_ne id k entry (x ∷ xs) ne e =
    ground (arith, find_object-replace_object_ne id k entry xs ne e)

module _ (D : Digest) (B : RemoteBackend) (C : Channel B) where
  -- The entries of the objects in `P` are as before, and so is all but the manifest and the channel,
  -- where no message is lost.
  pub record Moves (P : ℕ → Type 0) (d e : BlockDevice B) : Type 0 where
    pub same_map : e.map ≡ d.map
    pub same_store : e.store ≡ d.store
    pub same_committer : e.committer ≡ d.committer
    pub same_entry :
        (id : ℕ) → P id → find_object id e.manifest.objects ≡ find_object id d.manifest.objects
    pub messages :
        (m : ℕ) (bytes : List ℕ)
        → C.message d.backend m ≡ some bytes
        → C.message e.backend m ≡ some bytes

  pub Moves-refl : (P : ℕ → Type 0) (d : BlockDevice B) → Moves P d d
  Moves-refl P d = record {
    same_map = refl;
    same_store = refl;
    same_committer = refl;
    same_entry = λ id _. refl;
    messages = λ m bytes h. h;
  }

  module _ {P : ℕ → Type 0} {d e : BlockDevice B} (a : Moves P d e) where
    pub InDirty-Moves : (id : ℕ) (p : List ℕ) → InDirty D B C d id p → InDirty D B C e id p
    InDirty-Moves id p h = record {
      row = h.row;
      bytes = h.bytes;
      found = rw a.same_store h.found;
      path = rw a.same_store h.path;
      file = rw a.same_store h.file;
      is_sealed = rw a.same_map h.is_sealed;
    }

    pub Holds-Moves : (id : ℕ) (p : List ℕ) → P id → Holds D B C d id p → Holds D B C e id p
    Holds-Moves id p same (in_dirty h) = in_dirty (InDirty-Moves id p h)
    Holds-Moves id p same (in_zero h) = in_zero (record {
      entry = h.entry;
      undirtied = rw a.same_store h.undirtied;
      found = a.same_entry id same ∙ h.found;
      is_zero = h.is_zero;
      zeros = rw a.same_map h.zeros;
    })
    Holds-Moves id p same (in_channel h) = in_channel (record {
      entry = h.entry;
      remote = h.remote;
      sha = h.sha;
      bytes = h.bytes;
      undirtied = rw a.same_store h.undirtied;
      found = a.same_entry id same ∙ h.found;
      not_zero = h.not_zero;
      has_remote = h.has_remote;
      has_sha = h.has_sha;
      named = h.named;
      kept = a.messages h.remote.message_id h.bytes h.kept;
      cached = rw a.same_store h.cached;
      is_sealed = rw a.same_map h.is_sealed;
    })

  -- The device with nothing left to flush.
  abbrev pub settled : BlockDevice B → BlockDevice B
  settled d = record d { store = clear_dirty_and_wal d.store }

  pub settled-Moves :
      {P : ℕ → Type 0} {d e : BlockDevice B} → Moves P d e → Moves P (settled d) (settled e)
  settled-Moves a = record {
    same_map = a.same_map;
    same_store = ap clear_dirty_and_wal a.same_store;
    same_committer = a.same_committer;
    same_entry = a.same_entry;
    messages = a.messages;
  }

  -- A clean object does not depend on what is dirty.
  pub Holds-settled :
      (d : BlockDevice B) (id : ℕ) (p : List ℕ)
      → dirty_object d.store id ≡ none
      → Holds D B C d id p
      → Holds D B C (settled d) id p
  unfolding clear_dirty_and_wal dirty_object row_at
  Holds-settled d id p clean (in_dirty h) = cc (clean, h.found)
  Holds-settled d id p clean (in_zero h) = in_zero (record {
    entry = h.entry;
    undirtied = refl;
    found = h.found;
    is_zero = h.is_zero;
    zeros = h.zeros;
  })
  Holds-settled d id p clean (in_channel h) = in_channel (record {
    entry = h.entry;
    remote = h.remote;
    sha = h.sha;
    bytes = h.bytes;
    undirtied = refl;
    found = h.found;
    not_zero = h.not_zero;
    has_remote = h.has_remote;
    has_sha = h.has_sha;
    named = h.named;
    kept = h.kept;
    cached = h.cached;
    is_sealed = h.is_sealed;
  })
