-- ===== src/Device/Holds.antt =====
-- What an object of the device contains: the bytes that a read is to return, and where they come from.
use telegram_block_device.Prelude.{
  ℕ, ◌^◌, ◌<◌, ◌≡◌, refl, ◌⊎◌, true, false, none, some, List, ok, replicate, ◌∙◌,
}
use telegram_block_device.Prelude.Bytes.{Text, text_eq}
use telegram_block_device.Format.Digest.{Digest, sha256_hex}
use telegram_block_device.Format.Envelope.{ObjectEnvelope, decode}
use telegram_block_device.Format.Manifest.{RemoteObjectRef, ManifestObject}
use telegram_block_device.Cache.{DirtyObject, object_path, dirty_object}
use telegram_block_device.Backend.{RemoteBackend, Channel}
use telegram_block_device.Device.{BlockDevice, find_object, pad_object}

-- Bytes that are the envelope of `p` under a checksum.
pub record IsSealed (D : Digest) (size id generation : ℕ) (sha : Text) (bytes p : List ℕ)
    : Type 0 where
  pub envelope : ObjectEnvelope
  pub checksum : text_eq (sha256_hex D bytes) sha ≡ true
  pub decodes : decode D bytes id generation ≡ ok envelope
  pub padded : pad_object envelope.payload size ≡ p

module _ (D : Digest) (B : RemoteBackend) (C : Channel B) where
  -- A write that no flush has taken up: its row names the object's file.
  pub record InDirty (d : BlockDevice B) (id : ℕ) (p : List ℕ) : Type 0 where
    pub row : DirtyObject
    pub bytes : List ℕ
    pub found : dirty_object d.store id ≡ some row
    pub path : row.cache_path ≡ object_path d.store.cache_dir id row.generation
    pub file : d.store.files row.cache_path ≡ some bytes
    pub is_sealed : IsSealed D d.map.object_size id row.generation row.sha256 bytes p

  -- An object that was never written.
  pub record InZero (d : BlockDevice B) (id : ℕ) (p : List ℕ) : Type 0 where
    pub entry : ManifestObject
    pub undirtied : dirty_object d.store id ≡ none
    pub found : find_object id d.manifest.objects ≡ some entry
    pub is_zero : entry.zero ≡ true
    pub zeros : replicate d.map.object_size 0 ≡ p

  -- An object that the channel keeps; the cache may have the same bytes.
  pub record InChannel (d : BlockDevice B) (id : ℕ) (p : List ℕ) : Type 0 where
    pub entry : ManifestObject
    pub remote : RemoteObjectRef
    pub sha : Text
    pub bytes : List ℕ
    pub undirtied : dirty_object d.store id ≡ none
    pub found : find_object id d.manifest.objects ≡ some entry
    pub not_zero : entry.zero ≡ false
    pub has_remote : entry.remote ≡ some remote
    pub has_sha : entry.sha256 ≡ some sha
    pub named :
        (remote.object_id ≡ id) × (remote.generation ≡ entry.generation) × (remote.sha256 ≡ sha)
    pub kept : C.message d.backend remote.message_id ≡ some bytes
    pub cached :
        (d.store.files (object_path d.store.cache_dir id entry.generation) ≡ none)
        ⊎ (d.store.files (object_path d.store.cache_dir id entry.generation) ≡ some bytes)
    pub is_sealed : IsSealed D d.map.object_size id entry.generation sha bytes p

  pub data Holds (d : BlockDevice B) (id : ℕ) (p : List ℕ) : Type 0 where
    in_dirty : InDirty d id p → Holds d id p
    in_zero : InZero d id p → Holds d id p
    in_channel : InChannel d id p → Holds d id p

  -- `e` is `d` after steps that change no object: reads, which fill the cache.
  pub record Fills (d e : BlockDevice B) : Type 0 where
    pub same_map : e.map ≡ d.map
    pub same_manifest : e.manifest ≡ d.manifest
    pub same_rows : e.store.dirty_rows ≡ d.store.dirty_rows
    pub same_limit : e.max_dirty_objects ≡ d.max_dirty_objects
    pub same_committer : e.committer ≡ d.committer
    pub same_dir : e.store.cache_dir ≡ d.store.cache_dir
    pub keeps : (id : ℕ) (p : List ℕ) → id < 2 ^ 64 → Holds d id p → Holds e id p

  pub Fills-refl : (d : BlockDevice B) → Fills d d
  Fills-refl d = record {
    same_map = refl;
    same_manifest = refl;
    same_rows = refl;
    same_limit = refl;
    same_committer = refl;
    same_dir = refl;
    keeps = λ id p lt h. h;
  }

  pub Fills-trans : {d e f : BlockDevice B} → Fills d e → Fills e f → Fills d f
  Fills-trans a b = record {
    same_map = b.same_map ∙ a.same_map;
    same_manifest = b.same_manifest ∙ a.same_manifest;
    same_rows = b.same_rows ∙ a.same_rows;
    same_limit = b.same_limit ∙ a.same_limit;
    same_committer = b.same_committer ∙ a.same_committer;
    same_dir = b.same_dir ∙ a.same_dir;
    keeps = λ id p lt h. b.keeps id p lt (a.keeps id p lt h);
  }
