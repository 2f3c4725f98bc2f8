-- ===== src/Nbd/Ends/Options.antt =====
-- The option loop of crates/tgdrive-nbd/src/server.rs has rounds enough.
use telegram_block_device.Prelude.{
  ℕ, zero, suc, ◌+◌, ◌≤◌, ◌<◌, not, ◌&&◌, Option, none, some, List, Result, ok, err, continue,
  raise, lift, ensure, length, arith, ◌==◌,
}
use telegram_block_device.Prelude.Bytes.{Text, codes, text_eq}
use telegram_block_device.Nbd.{
  NbdBackend, NbdServerOptions, NbdError, Connection, invalid_option_magic, client_aborted,
  unknown_export, i_have_opt, opt_export_name, opt_go, opt_structured_reply, opt_abort,
}
use telegram_block_device.Nbd.Stream.{Action, read_int}
use telegram_block_device.Nbd.Handshake.{
  greet, is_empty, is_export, accept_export, parse_go_export_name, write_option_reply,
  unsupported_option, go_reply, export_name_option, Negotiation, agreed, next_option, answer_option,
  negotiate_option, negotiate_loop, negotiate,
}
use telegram_block_device.Nbd.Handshake
use telegram_block_device.Nbd.Ends.Takes.{
  Good, Takes, Takes-bind, read_exact-Takes, read_int-Takes, chain, any, if-Takes, if-Good,
  ensure-Takes, NotCut,
}

module _ (B : NbdBackend) (lossy : List ℕ → Text) (options : NbdServerOptions) where
  write_option_reply-Takes :
      (option answer : ℕ) (payload : List ℕ)
      → Takes B 0 (write_option_reply lossy B options option answer payload)
  write_option_reply-Takes option answer payload c = omega arith

  unsupported_option-Takes :
      (option : ℕ) (text : Text) → Takes B 0 (unsupported_option lossy B options option text)
  unsupported_option-Takes option text c = omega arith

  go_reply-Takes : (requested : Option Text) → Takes B 0 (go_reply lossy B options requested)
  go_reply-Takes none c = omega arith
  go_reply-Takes (some name) c =
      if-Good B 0 c (not (is_empty name) && not (text_eq name options.export_name)) _ _
        (omega arith) (omega arith)

  accept_export-Takes : Takes B 0 (accept_export lossy B options)
  accept_export-Takes c = omega arith

  export_name_option-Takes :
      (payload : List ℕ) → Takes B 0 (export_name_option lossy B options payload)
  export_name_option-Takes payload =
      chain B _ _
        (ensure-Takes B (is_export lossy B options (lossy payload)) (unknown_export (lossy payload))
          (λ h. cc))
        (λ _. accept_export-Takes)

  aborted : Takes B 0 (raise {A = Negotiation} client_aborted)
  aborted c = λ h. cc

  answer_option-Takes :
      (option : ℕ) (payload : List ℕ) → Takes B 0 (answer_option lossy B options option payload)
  unfolding answer_option
  answer_option-Takes option payload =
      if-Takes B (option == opt_export_name) _ _ (export_name_option-Takes payload) (
        if-Takes B (option == opt_go) _ _ (go_reply-Takes (parse_go_export_name lossy payload)) (
          if-Takes B (option == opt_structured_reply) _ _
            (unsupported_option-Takes option (codes "structured replies are not supported"))
            (if-Takes B (option == opt_abort) _ _ aborted
              (unsupported_option-Takes option (codes "unsupported NBD option")))))

  negotiate_option-Takes : Takes B 8 (negotiate_option lossy B options)
  unfolding negotiate_option
  negotiate_option-Takes = Takes-bind B 8 0 (read_int B 8) _ (read_int-Takes B 8) (λ magic.
      chain B (lift (ensure (magic == i_have_opt) invalid_option_magic)) _
        (ensure-Takes B (magic == i_have_opt) invalid_option_magic (λ h. cc))
        (λ _. chain B _ _ (any B 4 _ (read_int-Takes B 4)) (λ option.
          chain B _ _ (any B 4 _ (read_int-Takes B 4)) (λ len.
            chain B _ _ (any B len _ (read_exact-Takes B len))
              (λ payload. answer_option-Takes option payload)))))

  negotiated :
      (rest : Action B (Unit {0})) (c : Connection B)
      (r : Result NbdError Negotiation × Connection B)
      → Good B 8 c r
      → ((e : Connection B) → length e.input + 8 ≤ length c.input → NotCut B (rest e))
      → NotCut B (continue r.0 (Handshake.go_on lossy B options rest) r.1)
  negotiated rest c (ok agreed, d) g h = tt
  negotiated rest c (ok next_option, d) g h = h d g
  negotiated rest c (err x, d) g h = g

  negotiate_loop-NotCut :
      (fuel : ℕ) (c : Connection B)
      → length c.input < fuel
      → NotCut B (negotiate_loop lossy B options fuel c)
  unfolding negotiate_loop
  negotiate_loop-NotCut zero c lt = absurd (omega arith)
  negotiate_loop-NotCut (suc fuel) c lt =
      negotiated (negotiate_loop lossy B options fuel) c (negotiate_option lossy B options c)
        (negotiate_option-Takes c) (λ e le. negotiate_loop-NotCut fuel e (omega arith))

  flags_read :
      (n : ℕ) (c : Connection B) (r : Result NbdError ℕ × Connection B)
      → Good B 4 c r
      → length c.input ≤ n
      → NotCut B (continue r.0 (λ _. negotiate_loop lossy B options (suc n)) r.1)
  flags_read n c (ok flags, d) g le = negotiate_loop-NotCut (suc n) d (omega arith)
  flags_read n c (err x, d) g le = g

  pub negotiate-NotCut : (c : Connection B) → NotCut B (negotiate lossy B options c)
  unfolding negotiate
  negotiate-NotCut c =
      let d : Connection B = (greet lossy B options c).1 in
      flags_read (length c.input) d (read_int B 4 d) (read_int-Takes B 4 d) (omega arith)
