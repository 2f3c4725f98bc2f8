-- ===== src/Nbd/Parse.antt =====
-- A request that was sent is read as it was sent.
use telegram_block_device.Prelude.{
  ℕ, ◌^◌, ◌≤◌, ◌<◌, ◌≡◌, refl, false, List, ◌++◌, ok, length, length-append, ltb, arith,
  take-append_length, drop-append_length,
}
use telegram_block_device.Prelude.Bytes.{digits_be, length-digits_be, value_be-digits_be}
use telegram_block_device.Nbd.{NbdBackend, Connection, req_magic}
use telegram_block_device.Nbd.Stream.{read_exact, read_int}
use telegram_block_device.Nbd.Serve.{Request, read_from}
use telegram_block_device.Nbd.Wire.{header, IsRequest}

not_short : (n m : ℕ) → n ≤ m → ltb m n ≡ false
not_short n m h = ground arith

module _ (B : NbdBackend) where
  abbrev pub conn : List ℕ → List ℕ → B.State → Connection B
  conn input output s = record { input = input; output = output; state = s }

  pub read_exact_lem :
      (n : ℕ) (xs rest out : List ℕ) (s : B.State)
      → length xs ≡ n
      → read_exact B n (conn (xs ++ rest) out s) ≡ (ok xs, conn rest out s)
  unfolding read_exact
  read_exact_lem n xs rest out s e =
      let long : n ≤ length (xs ++ rest) = omega (arith, length-append xs rest) in
      rw
        (
          not_short n (length (xs ++ rest)) long,
          take-append_length n xs rest e,
          drop-append_length n xs rest e,
        )
        refl

  pub read_int_lem :
      (w n : ℕ) (rest out : List ℕ) (s : B.State)
      → n < 256 ^ w
      → read_int B w (conn (digits_be 256 w n ++ rest) out s) ≡ (ok n, conn rest out s)
  unfolding read_int
  read_int_lem w n rest out s h =
      rw
        (
          read_exact_lem w (digits_be 256 w n) rest out s (length-digits_be 256 w n),
          value_be-digits_be 256 w n h,
        )
        refl

  pub read_from-header :
      (flags : ℕ) (r : Request) (rest out : List ℕ) (s : B.State)
      → flags < 2 ^ 16
      → IsRequest r
      → read_from B (conn (header flags r rest) out s) ≡ (ok r, conn rest out s)
  unfolding read_from header
  read_from-header flags r rest out s hf (hc, hh, ho, hl) =
      rw
        (
          read_int_lem 4 req_magic _ out s (omega arith),
          read_int_lem 2 flags _ out s (omega arith),
          read_int_lem 2 r.command _ out s (omega arith),
          read_int_lem 8 r.handle _ out s (omega arith),
          read_int_lem 8 r.offset _ out s (omega arith),
          read_int_lem 4 r.len rest out s (omega arith),
        )
        refl
