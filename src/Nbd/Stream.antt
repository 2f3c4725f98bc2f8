-- ===== src/Nbd/Stream.antt =====
-- Reading from a connection and writing to it: `AsyncReadExt` and `AsyncWriteExt` of tokio as the
-- server uses them, and `discard_payload`.
use telegram_block_device.Prelude.{
  ℕ, zero, suc, ◌-◌, min, List, ◌++◌, ok, err, Exec, ◌>>=◌, pure, raise, map_err, length, take,
  drop, ltb, if◌then◌else◌,
}
use telegram_block_device.Prelude.Bytes.{value_be, digits_be}
use telegram_block_device.Errors.{Error}
use telegram_block_device.Nbd.{NbdBackend, NbdError, unexpected_eof, loop_cut, backend, Connection}

module _ (B : NbdBackend) where
  abbrev pub Action : Type 0 → Type 0
  Action A = Exec NbdError (Connection B) A

  -- At the end of the stream what is left is lost.
  unfoldable pub read_exact : ℕ → Action (List ℕ)
  read_exact n c =
      if ltb (length c.input) n
      then (err unexpected_eof, record c { input = drop n c.input })
      else (ok (take n c.input), record c { input = drop n c.input })

  -- `read_u16`, `read_u32` and `read_u64`, of so many bytes.
  unfoldable pub read_int : ℕ → Action ℕ
  read_int w = do bytes ← read_exact w; pure (value_be 256 bytes)

  abbrev pub write_all : List ℕ → Action (Unit {0})
  write_all bytes c = (ok tt, record c { output = c.output ++ bytes })

  abbrev pub write_int : ℕ → ℕ → Action (Unit {0})
  write_int w n = write_all (digits_be 256 w n)

  -- A call of the backend, whose error ends the connection.
  abbrev pub in_backend : {A : Type 0} → Exec Error B.State A → Action A
  in_backend m c = let (r, s) = m c.state in (map_err backend r, record c { state = s })

  -- The loop of `discard_payload`; a round for every byte is enough.
  unfoldable pub discard_loop : ℕ → ℕ → Action (Unit {0})
  unfolding read_exact
  discard_loop fuel zero = pure tt
  discard_loop zero (suc remaining) = raise loop_cut
  discard_loop (suc fuel) (suc remaining) = do
    let n = min (suc remaining) 8192
    bytes ← read_exact n
    discard_loop fuel (suc remaining - n)

  abbrev pub discard_payload : ℕ → Action (Unit {0})
  discard_payload len = discard_loop len len
