-- ===== src/Device/ReadObject.antt =====
-- `read_object` returns what the object contains, and changes no object.
use telegram_block_device.Prelude.{
  ℕ, ◌^◌, ◌<◌, ◌≡◌, ◌∙◌, refl, ap, ap₂, inl, inr, none, some, true, List, ok, Result,
}
use telegram_block_device.Prelude.Bytes.{text_eq}
use telegram_block_device.Format.Envelope.{decode}
use telegram_block_device.Format.Digest.{Digest, sha256_hex}
use telegram_block_device.Format.Manifest.{ManifestJson}
use telegram_block_device.Cache.{object_path, write_cache, read_cache}
use telegram_block_device.Errors.{Error}
use telegram_block_device.Backend.{RemoteBackend, Channel, IsReadable}
use telegram_block_device.Device.{BlockDevice, read_object}
use telegram_block_device.Device.Fills.{Adds-Fills, fill_dirty, fill_cache}
use telegram_block_device.Device.Holds.{
  InDirty, InZero, InChannel, Holds, in_dirty, in_zero, in_channel, Fills, Fills-refl,
}

module _ (D : Digest) (J : ManifestJson) (B : RemoteBackend) (C : Channel B) where
  -- The outcome of reading `p`.
  abbrev pub ReadsAs : BlockDevice B → List ℕ → Result Error (List ℕ) × BlockDevice B → Type 0
  ReadsAs d p out = (out.0 ≡ ok p) × Fills D B C d out.1

  from_dirty :
      (d : BlockDevice B) (id : ℕ) (p : List ℕ)
      → InDirty D B C d id p
      → ReadsAs d p (read_object D J B id d)
  unfolding read_object
  from_dirty d id p h =
      rw (h.found, h.file, h.is_sealed.checksum, h.is_sealed.decodes, h.is_sealed.padded)
        (refl, Fills-refl D B C d)

  from_zero :
      (d : BlockDevice B) (id : ℕ) (p : List ℕ)
      → InZero D B C d id p
      → ReadsAs d p (read_object D J B id d)
  unfolding read_object
  from_zero d id p h = rw (h.undirtied, h.found, h.is_zero, h.zeros) (refl, Fills-refl D B C d)

  -- A stamp in the cache's table and the metrics are no part of a content.
  from_cache_file :
      (d : BlockDevice B) (id : ℕ) (p : List ℕ) (h : InChannel D B C d id p)
      → d.store.files (object_path d.store.cache_dir id h.entry.generation) ≡ some h.bytes
      → ReadsAs d p (read_object D J B id d)
  unfolding read_object read_cache
  from_cache_file d id p h file =
      rw
        (
          h.undirtied, h.found, h.not_zero, h.has_remote, h.has_sha, file, h.is_sealed.checksum,
          h.is_sealed.decodes, h.is_sealed.padded,
        )
        (
          refl,
          Adds-Fills D B C (record {
            same_map = refl;
            same_manifest = refl;
            same_rows = refl;
            same_limit = refl;
            same_committer = refl;
            same_dir = refl;
            messages = λ m bytes k. k;
            dirty_files = λ j q lt g. g.file;
            cache_files = λ j q lt g. g.cached;
          }),
        )

  from_download :
      (d : BlockDevice B) (id : ℕ) (p : List ℕ) (h : InChannel D B C d id p)
      → IsReadable D B C
      → id < 2 ^ 64
      → d.store.files (object_path d.store.cache_dir id h.entry.generation) ≡ none
      → ReadsAs d p (read_object D J B id d)
  unfolding read_object read_cache write_cache
  from_download d id p h readable lt file =
      let (same_id, same_generation, same_sha) = h.named in
      let decodes : decode D h.bytes h.remote.object_id h.remote.generation
          ≡ ok h.is_sealed.envelope =
        ap₂ (decode D h.bytes) same_id same_generation ∙ h.is_sealed.decodes in
      let checksum : text_eq (sha256_hex D h.bytes) h.remote.sha256 ≡ true =
        ap (text_eq (sha256_hex D h.bytes)) same_sha ∙ h.is_sealed.checksum in
      let fetched : (B.fetch_object h.remote d.backend).0 ≡ ok h.bytes =
        readable.fetch_reads h.remote d.backend h.bytes h.is_sealed.envelope h.kept decodes
          checksum in
      rw
        (
          h.undirtied, h.found, h.not_zero, h.has_remote, h.has_sha, file, fetched,
          h.is_sealed.checksum, h.is_sealed.decodes, h.is_sealed.padded,
        )
        (
          refl,
          Adds-Fills D B C (record {
            same_map = refl;
            same_manifest = refl;
            same_rows = refl;
            same_limit = refl;
            same_committer = refl;
            same_dir = refl;
            messages = λ m bytes k. C.fetch_keeps h.remote d.backend m bytes k;
            dirty_files = fill_dirty D B C d id p h lt;
            cache_files = fill_cache D B C d id p h lt;
          }),
        )

  -- On a channel that can be read, a read of an object whose number is a u64 returns its content,
  -- wherever that is kept, and changes no object.
  pub read_object_lem :
      (d : BlockDevice B) (id : ℕ) (p : List ℕ)
      → IsReadable D B C
      → id < 2 ^ 64
      → Holds D B C d id p
      → ReadsAs d p (read_object D J B id d)
  read_object_lem d id p readable lt (in_dirty h) = from_dirty d id p h
  read_object_lem d id p readable lt (in_zero h) = from_zero d id p h
  read_object_lem d id p readable lt (in_channel h) = elim h.cached [
    | inl missing ↦ from_download d id p h readable lt missing
    | inr there ↦ from_cache_file d id p h there
  ]
