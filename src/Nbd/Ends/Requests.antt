-- ===== src/Nbd/Ends/Requests.antt =====
-- The request loop of crates/tgdrive-nbd/src/server.rs has rounds enough.
use telegram_block_device.Prelude.{
  ℕ, zero, suc, ◌+◌, ◌-◌, ◌≤◌, ◌<◌, Bool, true, false, not, ◌||◌, Result, ok, err, continue, length,
  arith, ◌==◌, min,
}
use telegram_block_device.Nbd.{
  err_invalid, cmd_read, cmd_write, cmd_flush, cmd_disc, cmd_trim, cmd_write_zeroes, NbdBackend,
  NbdError, Connection, loop_cut, unexpected_eof, invalid_request_magic, invalid_option_magic,
  client_aborted, unknown_export, backend,
}
use telegram_block_device.Nbd.Stream.{Action, read_exact, read_int, in_backend, discard_loop}
use telegram_block_device.Nbd.Serve.{
  reply, serve_flush, serve_read, serve_write, serve_disc, serve_trim, serve_unknown, discard_if,
  bounds_ok, or_end, on_request, go_on, Request, Flow, disconnected, next_request, read_from,
  serve_request, serve_loop, serve,
}
use telegram_block_device.Nbd.Ends.Takes.{
  Good, Takes, Takes-bind, read_exact-Takes, read_int-Takes, pure-Takes, in_backend-Takes, chain,
  any, if-Takes, if-Good, ensure-Takes, NotCut,
}

module _ (B : NbdBackend) where
  reply-Takes : (error handle : ℕ) → Takes B 0 (reply B error handle)
  reply-Takes error handle c = omega arith

  serve_flush-Takes : (r : Request) → Takes B 0 (serve_flush B r)
  serve_flush-Takes r = search (chain, in_backend-Takes, reply-Takes)

  discard_loop-Takes : (fuel n : ℕ) → n ≤ fuel → Takes B 0 (discard_loop B fuel n)
  unfolding discard_loop
  discard_loop-Takes fuel zero le = pure-Takes B tt
  discard_loop-Takes zero (suc n) le = absurd (omega arith)
  discard_loop-Takes (suc fuel) (suc n) le =
      chain B (read_exact B (min (suc n) 8192)) _
        (any B (min (suc n) 8192) _ (read_exact-Takes B (min (suc n) 8192)))
        (λ bytes. discard_loop-Takes fuel (suc n - min (suc n) 8192) (omega arith))

  discard_if-Takes : (b : Bool) (n : ℕ) → Takes B 0 (discard_if B b n)
  discard_if-Takes true n = discard_loop-Takes n n (omega arith)
  discard_if-Takes false n = pure-Takes B tt

  serve_read-Takes : (size : ℕ) (r : Request) → Takes B 0 (serve_read B size r)
  serve_read-Takes size r c =
      if-Good B 0 c (not (bounds_ok size r.offset r.len)) _ _ (reply-Takes err_invalid r.handle c) (
        chain B (in_backend B (B.read_at r.offset r.len)) _ (in_backend-Takes B _)
          (λ bytes d. omega arith) c)

  serve_write-Takes : (size : ℕ) (r : Request) → Takes B 0 (serve_write B size r)
  serve_write-Takes size r c =
      if-Good B 0 c (not (bounds_ok size r.offset r.len)) _ _
        (chain B (discard_loop B r.len r.len) _ (discard_loop-Takes r.len r.len (omega arith))
          (λ _. reply-Takes err_invalid r.handle) c)
        (chain B (read_exact B r.len) _ (any B r.len _ (read_exact-Takes B r.len))
          (λ payload.
            chain B (in_backend B (B.write_at r.offset payload)) _ (in_backend-Takes B _)
              (λ _. reply-Takes 0 r.handle))
          c)

  serve_disc-Takes : Takes B 0 (serve_disc B)
  serve_disc-Takes = search (chain, in_backend-Takes, pure-Takes)

  serve_trim-Takes : (r : Request) → Takes B 0 (serve_trim B r)
  serve_trim-Takes r = search (chain, discard_if-Takes, reply-Takes)

  serve_unknown-Takes : (r : Request) → Takes B 0 (serve_unknown B r)
  serve_unknown-Takes r = search (chain, discard_if-Takes, reply-Takes)

  serve_request-Takes : (size : ℕ) (r : Request) → Takes B 0 (serve_request B size r)
  unfolding serve_request
  serve_request-Takes size r = if-Takes B (r.command == cmd_read) _ _ (serve_read-Takes size r) (
      if-Takes B (r.command == cmd_write) _ _ (serve_write-Takes size r) (
        if-Takes B (r.command == cmd_flush) _ _ (serve_flush-Takes r) (
          if-Takes B (r.command == cmd_disc) _ _ serve_disc-Takes (
            if-Takes B (r.command == cmd_trim || r.command == cmd_write_zeroes) _ _
              (serve_trim-Takes r) (serve_unknown-Takes r)))))

  -- A request has bytes of its own.
  read_from-Takes : Takes B 4 (read_from B)
  unfolding read_from
  read_from-Takes = Takes-bind B 4 0 (read_int B 4) _ (read_int-Takes B 4) (λ magic.
      chain B _ _ (ensure-Takes B _ invalid_request_magic (λ h. cc)) (λ _.
        chain B _ _ (any B 2 _ (read_int-Takes B 2)) (λ flags.
          chain B _ _ (any B 2 _ (read_int-Takes B 2)) (λ command.
            chain B _ _ (any B 8 _ (read_int-Takes B 8)) (λ handle.
              chain B _ _ (any B 8 _ (read_int-Takes B 8)) (λ offset.
                chain B _ _ (any B 4 _ (read_int-Takes B 4)) (λ len.
                  pure-Takes B {A = Request} (record {
                    command = command;
                    handle = handle;
                    offset = offset;
                    len = len;
                  }))))))))

  served :
      (rest : Action B (Unit {0})) (d : Connection B) (r : Result NbdError Flow × Connection B)
      → Good B 0 d r
      → ((e : Connection B) → length e.input ≤ length d.input → NotCut B (rest e))
      → NotCut B (continue r.0 (go_on B rest) r.1)
  served rest d (ok disconnected, e) g h = tt
  served rest d (ok next_request, e) g h = h e (omega arith)
  served rest d (err x, e) g h = g

  requested :
      (size : ℕ) (rest : Action B (Unit {0})) (c : Connection B)
      (r : Result NbdError Request × Connection B)
      → Good B 4 c r
      → ((e : Connection B) → length e.input + 4 ≤ length c.input → NotCut B (rest e))
      → NotCut B (continue (or_end B r.0) (on_request B size rest) r.1)
  requested size rest c (ok r, d) g h =
      served rest d (serve_request B size r d) (serve_request-Takes size r d)
        (λ e le. h e (omega arith))
  requested size rest c (err unexpected_eof, d) g h = tt
  requested size rest c (err invalid_request_magic, d) g h = λ k. cc
  requested size rest c (err invalid_option_magic, d) g h = λ k. cc
  requested size rest c (err client_aborted, d) g h = λ k. cc
  requested size rest c (err loop_cut, d) g h = g
  requested size rest c (err (unknown_export name), d) g h = λ k. cc
  requested size rest c (err (backend e), d) g h = λ k. cc

  serve_loop-NotCut :
      (size fuel : ℕ) (c : Connection B)
      → length c.input < fuel
      → NotCut B (serve_loop B size fuel c)
  unfolding serve_loop
  serve_loop-NotCut size zero c lt = absurd (omega arith)
  serve_loop-NotCut size (suc fuel) c lt =
      requested size (serve_loop B size fuel) c (read_from B c) (read_from-Takes c)
        (λ e le. serve_loop-NotCut size fuel e (omega arith))

  pub serve-NotCut : (size : ℕ) (c : Connection B) → NotCut B (serve B size c)
  unfolding serve
  serve-NotCut size c = serve_loop-NotCut size (suc (length c.input)) c (omega arith)
