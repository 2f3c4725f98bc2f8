-- ===== src/Device/WriteObject.antt =====
-- `write_dirty_object` gives one object a new content, and leaves the others.
use telegram_block_device.Prelude.{
  ℕ, suc, ◌+◌, ◌%◌, ◌^◌, ◌≤◌, ◌<◌, ◌≡◌, ◌≢◌, refl, ◌∙◌, true, List, ok, arith, length, resize,
  resize_self, length-resize, lt→ltb,
}
use telegram_block_device.Prelude.Bytes.{text_eq_refl}
use telegram_block_device.Prelude.Table.{
  row_at-put_self, row_at-put_ne, IsAscending, put-IsAscending, length-put,
}
use telegram_block_device.Format.Digest.{Digest, sha256_hex}
use telegram_block_device.Format.Envelope.{ObjectEnvelope, encode}
use telegram_block_device.Format.Envelope.RoundTrip.{IsWellFormed, decode-encode}
use telegram_block_device.Format.Manifest.{ManifestJson}
use telegram_block_device.Cache.{
  LocalStore, DirtyObject, object_path, write_cache, mark_dirty, dirty_object, stats,
}
use telegram_block_device.Cache.Paths.{write_file_ne, write_file_self}
use telegram_block_device.Backend.{RemoteBackend, Channel}
use telegram_block_device.Device.{BlockDevice, write_dirty_object}
use telegram_block_device.Device.Holds.{InDirty, Holds, in_dirty, in_zero, in_channel}
use telegram_block_device.Device.Represents.{IsSized}

module _ (D : Digest) (J : ManifestJson) (B : RemoteBackend) (C : Channel B) where
  -- `e` is `d` with a new content of one object.
  pub record Updates (d e : BlockDevice B) (id : ℕ) (p : List ℕ) : Type 0 where
    pub same_map : e.map ≡ d.map
    pub same_manifest : e.manifest ≡ d.manifest
    pub same_limit : e.max_dirty_objects ≡ d.max_dirty_objects
    pub same_committer : e.committer ≡ d.committer
    pub one_row : length e.store.dirty_rows ≤ suc (length d.store.dirty_rows)
    pub ascending :
        IsAscending (λ row. row.object_id) 0 d.store.dirty_rows
        → IsAscending (λ row. row.object_id) 0 e.store.dirty_rows
    pub written : Holds D B C e id p
    pub keeps : (j : ℕ) (q : List ℕ) → j < 2 ^ 64 → id ≢ j → Holds D B C d j q → Holds D B C e j q

  module _ (d : BlockDevice B) (id : ℕ) (p : List ℕ) (offset len : ℕ) where
    abbrev pub generation : ℕ
    generation = (d.manifest.generation + 1) % 2 ^ 64

    abbrev pub envelope : ObjectEnvelope
    envelope = record {
      object_id = id;
      generation = generation;
      object_size = d.map.object_size;
      flags = 0;
      payload = resize d.map.object_size 0 p;
    }

    abbrev pub bytes : List ℕ
    bytes = encode D envelope

    abbrev pub store : LocalStore
    store = (write_cache D id generation bytes true d.store).1

    abbrev row : DirtyObject
    row = record {
      object_id = id;
      generation = generation;
      cache_path = object_path d.store.cache_dir id generation;
      sha256 = sha256_hex D bytes;
    }

    -- The state that the code leaves.
    abbrev pub result : BlockDevice B
    result = record d {
      store =
          mark_dirty id generation (object_path store.cache_dir id generation) (sha256_hex D bytes)
            offset len store;
    }

    envelope-IsWellFormed : IsSized d.map → id < 2 ^ 64 → IsWellFormed envelope
    envelope-IsWellFormed s lt = record {
      object_id = lt;
      generation = omega arith;
      object_size = s.object_size;
      flags = omega arith;
      payload = omega (arith, length-resize d.map.object_size 0 p, s.object_size);
    }

    written_row :
        IsSized d.map → id < 2 ^ 64 → length p ≡ d.map.object_size → InDirty D B C result id p
    unfolding mark_dirty write_cache dirty_object
    written_row s lt n = record {
      row = row;
      bytes = bytes;
      found = row_at-put_self (λ row. row.object_id) row d.store.dirty_rows;
      path = refl;
      file = write_file_self _ bytes d.store.files;
      is_sealed = record {
        envelope = envelope;
        checksum = text_eq_refl (sha256_hex D bytes);
        decodes = decode-encode D envelope (envelope-IsWellFormed s lt);
        padded =
            resize_self d.map.object_size 0 (resize d.map.object_size 0 p)
              (length-resize d.map.object_size 0 p)
            ∙ resize_self d.map.object_size 0 p n;
      };
    }

    other_row : (j : ℕ) → id ≢ j → dirty_object result.store j ≡ dirty_object d.store j
    unfolding mark_dirty write_cache dirty_object
    other_row j ne = row_at-put_ne (λ row. row.object_id) j row d.store.dirty_rows ne

    other_file :
        (j g : ℕ)
        → id < 2 ^ 64
        → j < 2 ^ 64
        → id ≢ j
        → result.store.files (object_path d.store.cache_dir j g)
          ≡ d.store.files (object_path d.store.cache_dir j g)
    unfolding mark_dirty write_cache
    other_file j g lt lt' ne =
        write_file_ne d.store.cache_dir id generation j g bytes d.store.files lt lt' ne

    same_dir : result.store.cache_dir ≡ d.store.cache_dir
    unfolding mark_dirty write_cache
    same_dir = refl

    others :
        id < 2 ^ 64
        → (j : ℕ) (q : List ℕ) → j < 2 ^ 64
        → id ≢ j
        → Holds D B C d j q
        → Holds D B C result j q
    others lt j q lt' ne (in_dirty h) = in_dirty (record {
      row = h.row;
      bytes = h.bytes;
      found = other_row j ne ∙ h.found;
      path = rw same_dir h.path;
      file = rw h.path (other_file j h.row.generation lt lt' ne ∙ (rw h.path at h.file));
      is_sealed = h.is_sealed;
    })
    others lt j q lt' ne (in_zero h) = in_zero (record {
      entry = h.entry;
      undirtied = other_row j ne ∙ h.undirtied;
      found = h.found;
      is_zero = h.is_zero;
      zeros = h.zeros;
    })
    others lt j q lt' ne (in_channel h) = in_channel (record {
      entry = h.entry;
      remote = h.remote;
      sha = h.sha;
      bytes = h.bytes;
      undirtied = other_row j ne ∙ h.undirtied;
      found = h.found;
      not_zero = h.not_zero;
      has_remote = h.has_remote;
      has_sha = h.has_sha;
      named = h.named;
      kept = h.kept;
      cached = rw (same_dir, other_file j h.entry.generation lt lt' ne) h.cached;
      is_sealed = h.is_sealed;
    })

    row_count : length result.store.dirty_rows ≤ suc (length d.store.dirty_rows)
    unfolding mark_dirty write_cache
    row_count = length-put (λ row. row.object_id) row d.store.dirty_rows

    row_order :
        IsAscending (λ row. row.object_id) 0 d.store.dirty_rows
        → IsAscending (λ row. row.object_id) 0 result.store.dirty_rows
    unfolding mark_dirty write_cache
    row_order a = put-IsAscending (λ row. row.object_id) 0 row d.store.dirty_rows a (omega arith)

    -- While the limit on dirty objects is not reached, a write of a whole object goes through.
    pub write_dirty_object_lem :
        IsSized d.map
        → id < 2 ^ 64
        → length p ≡ d.map.object_size
        → length d.store.dirty_rows < d.max_dirty_objects
        → (write_dirty_object D J B id p offset len d ≡ (ok tt, result)) × Updates d result id p
    unfolding write_dirty_object stats write_cache
    write_dirty_object_lem s lt n room = (
      rw (lt→ltb _ _ room) refl,
      record {
        same_map = refl;
        same_manifest = refl;
        same_limit = refl;
        same_committer = refl;
        one_row = row_count;
        ascending = row_order;
        written = in_dirty (written_row s lt n);
        keeps = others lt;
      },
    )
