-- ===== src/Nbd/Serve.antt =====
-- The requests of a connection.
use telegram_block_device.Prelude.{
  ℕ, zero, suc, ◌+◌, ◌^◌, Bool, true, false, not, ◌&&◌, ◌||◌, Option, none, some, List, Result, ok,
  err, ◌>>=◌, ◌>>◌, pure, raise, lift, ensure, length, ltb, leb, ◌==◌, if◌then◌else◌,
}
use telegram_block_device.Prelude.Bytes.{Text}
use telegram_block_device.Nbd.{
  NbdBackend, NbdServerOptions, NbdError, unexpected_eof, invalid_request_magic, loop_cut,
  req_magic, rep_magic, cmd_read, cmd_write, cmd_disc, cmd_flush, cmd_trim, cmd_write_zeroes,
  err_unsupported, err_invalid,
}
use telegram_block_device.Nbd.Stream.{
  Action, read_exact, read_int, write_all, write_int, in_backend, discard_payload, discard_loop,
}
use telegram_block_device.Nbd.Handshake.{negotiate}

pub record Request : Type 0 where
  pub command : ℕ
  pub handle : ℕ
  pub offset : ℕ
  pub len : ℕ

-- What the loop does after a request.
pub data Flow : Type 0 where
  disconnected next_request : Flow

-- `checked_add`, on u64
unfoldable pub bounds_ok : ℕ → ℕ → ℕ → Bool
bounds_ok device_size offset len =
    if ltb (offset + len) (2 ^ 64) then leb (offset + len) device_size else false

module _ (B : NbdBackend) where
  -- `Request::read_from`
  unfoldable pub read_from : Action B Request
  unfolding read_int
  read_from = do
    magic ← read_int B 4
    lift (ensure (magic == req_magic) invalid_request_magic)
    flags ← read_int B 2
    command ← read_int B 2
    handle ← read_int B 8
    offset ← read_int B 8
    len ← read_int B 4
    pure (record { command = command; handle = handle; offset = offset; len = len })

  -- The end of the stream where a request would begin, or inside one, ends the connection well.
  abbrev pub or_end : Result NbdError Request → Result NbdError (Option Request)
  or_end (ok r) = ok (some r)
  or_end (err unexpected_eof) = ok none
  or_end (err e) = err e

  abbrev pub request_or_end : Action B (Option Request)
  request_or_end c = (or_end (read_from c).0, (read_from c).1)

  abbrev pub write_reply : ℕ → ℕ → Action B (Unit {0})
  write_reply error handle = do write_int B 4 rep_magic; write_int B 4 error; write_int B 8 handle

  abbrev pub reply : ℕ → ℕ → Action B Flow
  reply error handle = do write_reply error handle; pure next_request

  abbrev pub serve_read : ℕ → Request → Action B Flow
  serve_read device_size r c =
      if not (bounds_ok device_size r.offset r.len)
      then reply err_invalid r.handle c
      else (do
        bytes ← in_backend B (B.read_at r.offset r.len)
        write_reply 0 r.handle
        write_all B bytes
        pure next_request)
          c

  abbrev pub serve_write : ℕ → Request → Action B Flow
  serve_write device_size r c =
      if not (bounds_ok device_size r.offset r.len)
      then (do discard_payload B r.len; reply err_invalid r.handle) c
      else (do
        payload ← read_exact B r.len
        in_backend B (B.write_at r.offset payload)
        reply 0 r.handle)
          c

  abbrev pub serve_flush : Request → Action B Flow
  serve_flush r = do in_backend B B.flush; reply 0 r.handle

  abbrev pub serve_disc : Action B Flow
  serve_disc = do in_backend B B.flush; pure disconnected

  abbrev pub discard_if : Bool → ℕ → Action B (Unit {0})
  discard_if true len = discard_payload B len
  discard_if false len = pure tt

  -- The last two arms of the `match`, whose tests for a write never hold there.
  abbrev pub serve_trim : Request → Action B Flow
  serve_trim r = do
    discard_if (ltb 0 r.len && r.command == cmd_write) r.len
    reply err_unsupported r.handle

  abbrev pub serve_unknown : Request → Action B Flow
  serve_unknown r = do discard_if (r.command == cmd_write) r.len; reply err_unsupported r.handle

  -- The `match` on the command.
  unfoldable pub serve_request : ℕ → Request → Action B Flow
  unfolding bounds_ok read_exact discard_loop
  serve_request device_size r =
      if r.command == cmd_read
      then serve_read device_size r
      else if r.command == cmd_write
      then serve_write device_size r
      else if r.command == cmd_flush
      then serve_flush r
      else if r.command == cmd_disc
      then serve_disc
      else if r.command == cmd_trim || r.command == cmd_write_zeroes
      then serve_trim r
      else serve_unknown r

  abbrev pub go_on : Action B (Unit {0}) → Flow → Action B (Unit {0})
  go_on rest disconnected = pure tt
  go_on rest next_request = rest

  abbrev pub on_request : ℕ → Action B (Unit {0}) → Option Request → Action B (Unit {0})
  on_request device_size rest none = pure tt
  on_request device_size rest (some r) = do flow ← serve_request device_size r; go_on rest flow

  unfoldable pub serve_loop : ℕ → ℕ → Action B (Unit {0})
  unfolding read_from serve_request
  serve_loop device_size zero = raise loop_cut
  serve_loop device_size (suc fuel) = do
    r ← request_or_end
    on_request device_size (serve_loop device_size fuel) r

  -- A request has 28 bytes, so that a round for every byte that comes is enough.
  unfoldable pub serve : ℕ → Action B (Unit {0})
  unfolding serve_loop
  serve device_size c = serve_loop device_size (suc (length c.input)) c

unfoldable pub handle_client :
    (List ℕ → Text) → (B : NbdBackend) → NbdServerOptions → Action B (Unit {0})
unfolding negotiate serve
handle_client lossy B options = do negotiate lossy B options; serve B options.device_size
