-- ===== src/Nbd/Handshake.antt =====
-- The negotiation of a connection. `String::from_utf8_lossy` is `lossy`, which the theorems use on
-- names that are UTF-8 only.
use telegram_block_device.Prelude.{
  ℕ, zero, suc, ◌+◌, ◌%◌, ◌^◌, Bool, true, false, not, ◌&&◌, ◌||◌, Option, none, some, List, [],
  ◌∷◌, ◌++◌, ◌>>=◌, ◌>>◌, pure, raise, lift, ensure, length, take, slice, replicate, ltb, ◌==◌,
  if◌then◌else◌,
}
use telegram_block_device.Prelude.Bytes.{Text, codes, text_eq, value_be, digits_be}
use telegram_block_device.Nbd.{
  NbdBackend, NbdServerOptions, invalid_option_magic, unknown_export, client_aborted, loop_cut,
  nbd_magic, i_have_opt, option_reply_magic, handshake_flags, transmission_flags, opt_export_name,
  opt_abort, opt_go, opt_structured_reply, opt_rep_ack, opt_rep_info, opt_rep_err_unsup,
  opt_rep_err_invalid, info_export,
}
use telegram_block_device.Nbd.Stream.{Action, read_exact, read_int, write_all, write_int}

abbrev pub is_empty : Text → Bool
is_empty [] = true
is_empty (c ∷ cs) = false

-- What the server does after an option.
pub data Negotiation : Type 0 where
  agreed next_option : Negotiation

unfoldable pub parse_go_export_name : (List ℕ → Text) → List ℕ → Option Text
parse_go_export_name lossy bytes =
    let name_len = value_be 256 (take 4 bytes) in
    if ltb (length bytes) 6
    then none
    else if ltb (length bytes) (4 + name_len + 2)
    then none
    else some (lossy (slice 4 (4 + name_len) bytes))

module _ (lossy : List ℕ → Text) (B : NbdBackend) (options : NbdServerOptions) where
  abbrev pub write_export_info : Action B (Unit {0})
  write_export_info = do write_int B 8 options.device_size; write_int B 2 transmission_flags

  abbrev pub write_option_reply : ℕ → ℕ → List ℕ → Action B (Unit {0})
  write_option_reply option reply payload = do
    write_int B 8 option_reply_magic
    write_int B 4 option
    write_int B 4 reply
    write_int B 4 (length payload % 2 ^ 32)
    write_all B payload

  abbrev pub is_export : Text → Bool
  is_export requested = is_empty requested || text_eq requested options.export_name

  abbrev pub accept_export : Action B Negotiation
  accept_export = do write_export_info; write_all B (replicate 124 0); pure agreed

  abbrev pub export_name_option : List ℕ → Action B Negotiation
  export_name_option payload = do
    lift (ensure (is_export (lossy payload)) (unknown_export (lossy payload)))
    accept_export

  abbrev pub info_payload : List ℕ
  info_payload =
      digits_be 256 2 info_export
      ++ (digits_be 256 8 options.device_size ++ digits_be 256 2 transmission_flags)

  abbrev pub go_reply : Option Text → Action B Negotiation
  go_reply none c =
      (do
        write_option_reply opt_go opt_rep_err_invalid (codes "invalid NBD_OPT_GO")
        pure next_option)
        c
  go_reply (some requested) c =
      if not (is_empty requested) && not (text_eq requested options.export_name)
      then (do
        write_option_reply opt_go opt_rep_err_invalid (codes "unknown NBD export")
        pure next_option)
          c
      else (do
        write_option_reply opt_go opt_rep_info info_payload
        write_option_reply opt_go opt_rep_ack []
        pure agreed)
          c

  abbrev pub unsupported_option : ℕ → Text → Action B Negotiation
  unsupported_option option text = do
    write_option_reply option opt_rep_err_unsup text
    pure next_option

  -- The `match` on the option.
  unfoldable pub answer_option : ℕ → List ℕ → Action B Negotiation
  unfolding parse_go_export_name
  answer_option option payload =
      if option == opt_export_name
      then export_name_option payload
      else if option == opt_go
      then go_reply (parse_go_export_name lossy payload)
      else if option == opt_structured_reply
      then unsupported_option option (codes "structured replies are not supported")
      else if option == opt_abort
      then raise client_aborted
      else unsupported_option option (codes "unsupported NBD option")

  -- One round of the loop: an option is read and answered.
  unfoldable pub negotiate_option : Action B Negotiation
  unfolding read_int read_exact answer_option
  negotiate_option = do
    magic ← read_int B 8
    lift (ensure (magic == i_have_opt) invalid_option_magic)
    option ← read_int B 4
    len ← read_int B 4
    payload ← read_exact B len
    answer_option option payload

  abbrev pub go_on : Action B (Unit {0}) → Negotiation → Action B (Unit {0})
  go_on rest agreed = pure tt
  go_on rest next_option = rest

  unfoldable pub negotiate_loop : ℕ → Action B (Unit {0})
  unfolding negotiate_option
  negotiate_loop zero = raise loop_cut
  negotiate_loop (suc fuel) = do n ← negotiate_option; go_on (negotiate_loop fuel) n

  abbrev pub greet : Action B (Unit {0})
  greet = do write_int B 8 nbd_magic; write_int B 8 i_have_opt; write_int B 2 handshake_flags

  -- An option has 16 bytes at least, so that a round for every byte that comes is enough.
  unfoldable pub negotiate : Action B (Unit {0})
  unfolding negotiate_loop read_int
  negotiate c = (do greet; client_flags ← read_int B 4; negotiate_loop (suc (length c.input))) c
