-- ===== src/Nbd.antt =====
-- The NBD server: crates/tgdrive-nbd/src/server.rs. A connection is the bytes that the client will
-- have sent when it closes its side, the bytes that the server has sent, and the state of the backend.
-- Sending succeeds, and flushing the stream does nothing to either. The semaphore is left out: the loop
-- holds one permit at most. A request's start time and the logs are left out.
pub mod Stream
pub mod Handshake
pub mod Serve
pub mod Ends
pub mod Wire
pub mod Parse
pub mod Session
pub mod Device
pub mod Opening
pub mod Client
use telegram_block_device.Prelude.{ℕ, Exec, Result, ok, err, List}
use telegram_block_device.Prelude.Bytes.{Text}
use telegram_block_device.Errors.{Error}

abbrev pub nbd_magic : ℕ
nbd_magic = 0x4e42444d41474943

abbrev pub i_have_opt : ℕ
i_have_opt = 0x49484156454f5054

abbrev pub option_reply_magic : ℕ
option_reply_magic = 0x0003e889045565a9

abbrev pub req_magic : ℕ
req_magic = 0x25609513

abbrev pub rep_magic : ℕ
rep_magic = 0x67446698

abbrev pub handshake_flags : ℕ
handshake_flags = 3

-- Flags, flush, trim and write-zeroes: disjoint bits, whose union is their sum.
abbrev pub transmission_flags : ℕ
transmission_flags = 101

abbrev pub opt_export_name : ℕ
opt_export_name = 1

abbrev pub opt_abort : ℕ
opt_abort = 2

abbrev pub opt_go : ℕ
opt_go = 7

abbrev pub opt_structured_reply : ℕ
opt_structured_reply = 8

abbrev pub opt_rep_ack : ℕ
opt_rep_ack = 1

abbrev pub opt_rep_info : ℕ
opt_rep_info = 3

abbrev pub opt_rep_err_unsup : ℕ
opt_rep_err_unsup = 0x80000001

abbrev pub opt_rep_err_invalid : ℕ
opt_rep_err_invalid = 0x80000003

abbrev pub info_export : ℕ
info_export = 0

abbrev pub cmd_read : ℕ
cmd_read = 0

abbrev pub cmd_write : ℕ
cmd_write = 1

abbrev pub cmd_disc : ℕ
cmd_disc = 2

abbrev pub cmd_flush : ℕ
cmd_flush = 3

abbrev pub cmd_trim : ℕ
cmd_trim = 4

abbrev pub cmd_write_zeroes : ℕ
cmd_write_zeroes = 6

abbrev pub err_unsupported : ℕ
err_unsupported = 95

abbrev pub err_invalid : ℕ
err_invalid = 22

pub record NbdServerOptions : Type 0 where
  pub bind : Text
  pub export_name : Text
  pub device_size : ℕ
  pub logical_block_size : ℕ
  pub max_inflight : ℕ

-- `trait NbdBackend`
pub record NbdBackend : Type 1 where
  pub State : Type 0
  pub read_at : ℕ → ℕ → Exec Error State (List ℕ)
  pub write_at : ℕ → List ℕ → Exec Error State (Unit {0})
  pub flush : Exec Error State (Unit {0})

-- Why a connection ends early. `loop_cut` is no error of the program: a loop of the model had too few
-- rounds.
pub data NbdError : Type 0 where
  unexpected_eof invalid_request_magic invalid_option_magic client_aborted loop_cut : NbdError
  unknown_export : Text → NbdError
  backend : Error → NbdError

pub record Connection (B : NbdBackend) : Type 0 where
  pub input : List ℕ
  pub output : List ℕ
  pub state : B.State
