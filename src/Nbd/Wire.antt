-- ===== src/Nbd/Wire.antt =====
-- The protocol from the client's side: what it sends for its commands, and what a disk answers.
use telegram_block_device.Prelude.{
  ℕ, ◌+◌, ◌^◌, ◌≤◌, ◌<◌, ◌≡◌, Option, none, some, List, [], ◌∷◌, ◌++◌, Result, ok, err, length, leb,
  if◌then◌else◌,
}
use telegram_block_device.Prelude.Bytes.{digits_be}
use telegram_block_device.Errors.{Error}
use telegram_block_device.Disk.{bytes_from, overwrite}
use telegram_block_device.Nbd.{
  NbdBackend, req_magic, rep_magic, cmd_read, cmd_write, cmd_disc, cmd_flush, err_unsupported,
  err_invalid,
}
use telegram_block_device.Nbd.Serve.{Request}

-- `unsupported` is any other command, which has no payload.
pub data Command : Type 0 where
  read : ℕ → ℕ → Command
  write : ℕ → List ℕ → Command
  flush : Command
  unsupported : ℕ → ℕ → ℕ → Command

pub record Sent : Type 0 where
  pub flags : ℕ
  pub handle : ℕ
  pub command : Command

-- A request as its 28 bytes, with what follows.
unfoldable pub header : ℕ → Request → List ℕ → List ℕ
header flags r rest =
    digits_be 256 4 req_magic
    ++ (digits_be 256 2 flags
        ++ (digits_be 256 2 r.command
            ++ (digits_be 256 8 r.handle
                ++ (digits_be 256 8 r.offset ++ (digits_be 256 4 r.len ++ rest)))))

abbrev pub request_of : ℕ → Command → Request
request_of handle (read offset len) = record {
  command = cmd_read;
  handle = handle;
  offset = offset;
  len = len;
}
request_of handle (write offset bytes) = record {
  command = cmd_write;
  handle = handle;
  offset = offset;
  len = length bytes;
}
request_of handle flush = record { command = cmd_flush; handle = handle; offset = 0; len = 0 }
request_of handle (unsupported code offset len) = record {
  command = code;
  handle = handle;
  offset = offset;
  len = len;
}

abbrev pub payload_of : Command → List ℕ
payload_of (write offset bytes) = bytes
payload_of (read offset len) = []
payload_of flush = []
payload_of (unsupported code offset len) = []

-- The fields fit their widths.
abbrev pub IsRequest : Request → Type 0
IsRequest r = (r.command < 2 ^ 16) × (r.handle < 2 ^ 64) × (r.offset < 2 ^ 64) × (r.len < 2 ^ 32)

abbrev pub IsOther : Command → Type 0
IsOther (unsupported code offset len) = (3 < code)
IsOther (read offset len) = Unit {0}
IsOther (write offset bytes) = Unit {0}
IsOther flush = Unit {0}

abbrev pub IsSent : Sent → Type 0
IsSent s = (s.flags < 2 ^ 16) × IsRequest (request_of s.handle s.command) × IsOther s.command

abbrev pub AllSent : List Sent → Type 0
AllSent [] = Unit {0}
AllSent (s ∷ ss) = IsSent s × AllSent ss

abbrev pub IsClosing : Option ℕ → Type 0
IsClosing none = Unit {0}
IsClosing (some handle) = (handle < 2 ^ 64)

-- What the client sends: commands, and then the end of the stream or a request to disconnect.
unfoldable pub closing : Option ℕ → List ℕ
unfolding header
closing none = []
closing (some handle) =
    header 0 (record { command = cmd_disc; handle = handle; offset = 0; len = 0 }) []

unfoldable pub stream : List Sent → Option ℕ → List ℕ
unfolding header closing
stream [] last = closing last
stream (s ∷ ss) last =
    header s.flags (request_of s.handle s.command) (payload_of s.command ++ stream ss last)

-- The answer to a command of a disk of `size` bytes, and the disk after it.
abbrev pub answer_header : ℕ → ℕ → List ℕ
answer_header error handle =
    digits_be 256 4 rep_magic ++ (digits_be 256 4 error ++ digits_be 256 8 handle)

abbrev pub answer : ℕ → (ℕ → ℕ) → ℕ → Command → List ℕ
answer size f handle (read offset len) =
    if leb (offset + len) size
    then answer_header 0 handle ++ bytes_from f offset len
    else answer_header err_invalid handle
answer size f handle (write offset bytes) =
    if leb (offset + length bytes) size
    then answer_header 0 handle
    else answer_header err_invalid handle
answer size f handle flush = answer_header 0 handle
answer size f handle (unsupported code offset len) = answer_header err_unsupported handle

abbrev pub effect : ℕ → (ℕ → ℕ) → Command → ℕ → ℕ
effect size f (write offset bytes) =
    if leb (offset + length bytes) size then overwrite f offset bytes else f
effect size f (read offset len) = f
effect size f flush = f
effect size f (unsupported code offset len) = f

unfoldable pub answers : ℕ → (ℕ → ℕ) → List Sent → List ℕ
answers size f [] = []
answers size f (s ∷ ss) =
    answer size f s.handle s.command ++ answers size (effect size f s.command) ss

unfoldable pub effects : ℕ → (ℕ → ℕ) → List Sent → ℕ → ℕ
effects size f [] = f
effects size f (s ∷ ss) = effects size (effect size f s.command) ss

-- A call that changes the disk has either done so, or failed.
pub data Does (S : Type 0) (P : S → Type 0) (r : Result Error (Unit {0}) × S) : Type 0 where
  done : r.0 ≡ ok tt → P r.1 → Does S P r
  failed : (e : Error) → r.0 ≡ err e → Does S P r

-- What a backend promises the server: it is a disk of `size` bytes, which a flush saves.
pub record IsDisk (B : NbdBackend) (size : ℕ) : Type 1 where
  pub Holds : (ℕ → ℕ) → B.State → Type 0
  pub Saved : (ℕ → ℕ) → B.State → Type 0
  pub size_fits : size < 2 ^ 64
  pub reads :
      (f : ℕ → ℕ) (s : B.State) (offset len : ℕ)
      → Holds f s
      → offset + len ≤ size
      → ((B.read_at offset len s).0 ≡ ok (bytes_from f offset len))
        × Holds f (B.read_at offset len s).1
  pub writes :
      (f : ℕ → ℕ) (s : B.State) (offset : ℕ) (bytes : List ℕ)
      → Holds f s
      → offset + length bytes ≤ size
      → Does B.State (Holds (overwrite f offset bytes)) (B.write_at offset bytes s)
  pub flushes :
      (f : ℕ → ℕ) (s : B.State) → Holds f s → Does B.State (λ t. Holds f t × Saved f t) (B.flush s)
