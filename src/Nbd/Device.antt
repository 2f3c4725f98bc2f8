-- ===== src/Nbd/Device.antt =====
-- `impl NbdBackend for BlockDevice`, and what a client of the server on a block device sees.
use telegram_block_device.Prelude.{
  ℕ, ◌+◌, ◌^◌, ◌≤◌, ◌<◌, ◌≡◌, subst, sym, Option, List, ◌++◌, length, Result,
}
use telegram_block_device.Prelude.Bytes.{Text}
use telegram_block_device.Format.Digest.{Digest}
use telegram_block_device.Format.Manifest.{ManifestJson}
use telegram_block_device.Errors.{Error, backpressure}
use telegram_block_device.Block.{BlockMap}
use telegram_block_device.Backend.{RemoteBackend, Channel, IsReadable}
use telegram_block_device.Disk.{overwrite}
use telegram_block_device.Device.{BlockDevice}
use telegram_block_device.Device
use telegram_block_device.Device.Represents.{IsSized, Represents, Represents-Fills}
use telegram_block_device.Device.Read.{read_at-Fills}
use telegram_block_device.Device.Attempt.{Attempt, written, refused, write_at_Attempt}
use telegram_block_device.Device.Flush.Commit.{KeepsMessages, Flushed, restarted}
use telegram_block_device.Device.Flush.Commit
use telegram_block_device.Device.Flush.Durable.{flush_lem}
use telegram_block_device.Nbd.{NbdBackend, NbdServerOptions}
use telegram_block_device.Nbd.Serve.{handle_client}
use telegram_block_device.Nbd.Wire.{Sent, AllSent, IsClosing, Does, done, failed, IsDisk, stream}
use telegram_block_device.Nbd.Parse.{conn}
use telegram_block_device.Nbd.Session.{Outcome, serve-stream}
use telegram_block_device.Nbd.Opening.{Asked, AllRefused, refusals, greeting, acceptance, opening}
use telegram_block_device.Nbd.Client.{connection}

abbrev pub device_backend : Digest → ManifestJson → RemoteBackend → NbdBackend
device_backend D J B = record {
  State = BlockDevice B;
  read_at = Device.read_at D J B;
  write_at = Device.write_at D J B;
  flush = Device.flush D J B;
}

module _ (D : Digest) (J : ManifestJson) (B : RemoteBackend) (C : Channel B)
    (readable : IsReadable D B C) (m : BlockMap) (sized : IsSized m) where
  abbrev pub Serves : (ℕ → ℕ) → BlockDevice B → Type 0
  Serves f d = Represents D B C m f d × KeepsMessages D J B C d.committer

  -- The manifest and the channel have the disk.
  abbrev pub Lasts : (ℕ → ℕ) → BlockDevice B → Type 0
  Lasts f d =
      (cache_dir : Text) (now : ℕ) → Represents D B C m f (restarted D J B C m cache_dir now d)

  kept :
      (d e : BlockDevice B)
      → e.committer ≡ d.committer
      → KeepsMessages D J B C d.committer
      → KeepsMessages D J B C e.committer
  kept d e same safe = subst (KeepsMessages D J B C) (sym same) safe

  after_write :
      (f : ℕ → ℕ) (d : BlockDevice B) (offset : ℕ) (bytes : List ℕ)
      (r : Result Error (Unit {0}) × BlockDevice B)
      → KeepsMessages D J B C d.committer
      → Attempt D J B C readable m sized f d offset bytes r
      → Does (BlockDevice B) (Serves (overwrite f offset bytes)) r
  after_write f d offset bytes r safe (written good rep same) =
      done good (rep, kept d r.1 same safe)
  after_write f d offset bytes r safe (refused k lt bad rep) = failed backpressure bad

  after_flush :
      (f : ℕ → ℕ) (d : BlockDevice B) (r : Result Error (Unit {0}) × BlockDevice B)
      → KeepsMessages D J B C d.committer
      → Flushed D J B C m f d.committer r
      → Does (BlockDevice B) (λ e. Serves f e × Lasts f e) r
  after_flush f d r safe (Commit.failed e bad rep) = failed e bad
  after_flush f d r safe (Commit.succeeded good rep none_left same lasts) =
      done good ((rep, kept d r.1 same safe), lasts)

  pub device_disk : IsDisk (device_backend D J B) m.device_size
  device_disk = record {
    Holds = Serves;
    Saved = Lasts;
    size_fits = sized.device_size;
    reads = λ f d offset len (rep, safe) fits.
        let (value, fills) = read_at-Fills D J B C readable m f sized offset len d rep fits in
        (
          value,
          (
            Represents-Fills D B C m f sized rep fills,
            kept d (Device.read_at D J B offset len d).1 fills.same_committer safe,
          ),
        );
    writes = λ f d offset bytes (rep, safe) fits.
        after_write f d offset bytes _ safe
          (write_at_Attempt D J B C readable m sized offset bytes f d rep fits);
    flushes = λ f d (rep, safe). after_flush f d _ safe (flush_lem D J B C m f sized d rep safe);
  }

  pub device_disk-Holds : (f : ℕ → ℕ) (d : BlockDevice B) → Serves f d → device_disk.Holds f d
  unfolding device_disk
  device_disk-Holds f d h = h

-- The same of the server on a block device, whose sizes are in their range, on a channel that can be
-- read: the disk is the one that the device represents, and a client that disconnects in good order
-- leaves it in the manifest and the channel.
pub handle_client-BlockDevice :
    (D : Digest) (J : ManifestJson) (B : RemoteBackend) (C : Channel B)
    (readable : IsReadable D B C) (m : BlockMap) (sized : IsSized m) (lossy : List ℕ → Text)
    (options : NbdServerOptions) (size : options.device_size ≡ m.device_size) (flags : ℕ)
    (os : List Asked) (name wishes : List ℕ) (sents : List Sent) (last : Option ℕ) (f : ℕ → ℕ)
    (out : List ℕ) (d : BlockDevice B)
    → lossy name ≡ options.export_name
    → flags < 2 ^ 32
    → AllRefused os
    → 2 ≤ length wishes
    → 4 + length name + length wishes < 2 ^ 32
    → Serves D J B C readable m sized f d
    → AllSent sents
    → IsClosing last
    → Outcome
        (device_backend D J B)
        m.device_size
        (device_disk D J B C readable m sized)
        last
        f
        sents
        (out ++ (greeting ++ (refusals os ++ acceptance lossy (device_backend D J B) options)))
        (handle_client lossy (device_backend D J B) options (
          conn
            (device_backend D J B)
            (opening lossy (device_backend D J B) options flags os name wishes (stream sents last))
            out
            d))
unfolding device_disk
handle_client-BlockDevice D J B C readable m sized lossy options size flags os name wishes sents
      last f out d right small all two fits h sent closes =
    rw
      (
        connection lossy (device_backend D J B) options flags os name wishes (stream sents last) out
            d right small all two fits,
        size,
      )
      (serve-stream (device_backend D J B) m.device_size (device_disk D J B C readable m sized)
        sents last f _ d h sent closes)
