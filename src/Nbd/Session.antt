-- ===== src/Nbd/Session.antt =====
-- The server on a backend that is a disk answers as that disk.
use telegram_block_device.Prelude.{
  ℕ, zero, suc, ◌+◌, ◌^◌, ◌≤◌, ◌<◌, ◌≡◌, refl, sym, ◌∙◌, ap, inl, inr, false, Option, none, some,
  List, [], ◌∷◌, ◌++◌, Result, ok, err, map_err, length, length-append, length-take, length-drop,
  take-append-drop, take, drop, min, ◌-◌, ltb, leb, arith, append-nil, append_assoc, Bool-cases,
  leb→le, ◌==◌, ◌||◌, continue, pure,
}
use telegram_block_device.Prelude.Bytes.{digits_be, length-digits_be}
use telegram_block_device.Errors.{Error}
use telegram_block_device.Disk.{bytes_from, overwrite}
use telegram_block_device.Nbd.{
  NbdBackend, NbdError, Connection, backend, req_magic, rep_magic, err_invalid, err_unsupported,
  cmd_disc,
}
use telegram_block_device.Nbd.Stream.{Action, discard_loop}
use telegram_block_device.Nbd.Serve.{
  Flow, next_request, disconnected, bounds_ok, read_from, reply, serve_read, serve_write,
  serve_request, serve_loop, serve, go_on,
}
use telegram_block_device.Nbd.Wire.{
  Command, read, write, flush, unsupported, Sent, header, request_of, payload_of, AllSent, IsOther,
  closing, stream, answer, answer_header, effect, answers, effects, Does, done, failed, IsDisk,
  IsClosing,
}
use telegram_block_device.Nbd.Parse.{conn, read_exact_lem, read_from-header}

bounds_ok_lem :
    (size offset len : ℕ) → size < 2 ^ 64 → bounds_ok size offset len ≡ leb (offset + len) size
unfolding bounds_ok
bounds_ok_lem size offset len h = ground arith

joined :
    (out : List ℕ) (error handle : ℕ)
    → out ++ digits_be 256 4 rep_magic ++ digits_be 256 4 error ++ digits_be 256 8 handle
      ≡ out ++ answer_header error handle
joined out error handle =
    append_assoc (out ++ digits_be 256 4 rep_magic) (digits_be 256 4 error) (digits_be 256 8 handle)
    ∙ append_assoc out (digits_be 256 4 rep_magic) (digits_be 256 4 error ++ digits_be 256 8 handle)

differs : (n m : ℕ) → m < n → (n == m) ≡ false
differs n m h = ground arith

-- A command takes a byte at least.
length-stream : (sents : List Sent) (last : Option ℕ) → length sents ≤ length (stream sents last)
unfolding stream header
length-stream [] last = omega arith
length-stream (t ∷ sents) last =
    let rest : ℕ = length (stream sents last) in
    let ih : length sents ≤ rest = length-stream sents last in
    let more : rest ≤ length (payload_of t.command ++ stream sents last) =
      omega (arith, length-append (payload_of t.command) (stream sents last)) in
    rw
      (
        length-append (digits_be 256 4 req_magic),
        length-digits_be 256 4 req_magic,
        length-append (digits_be 256 2 t.flags),
        length-append (digits_be 256 2 (request_of t.handle t.command).command),
        length-append (digits_be 256 8 (request_of t.handle t.command).handle),
        length-append (digits_be 256 8 (request_of t.handle t.command).offset),
        length-append (digits_be 256 4 (request_of t.handle t.command).len),
      )
      (omega arith)

module _ (B : NbdBackend) where
  -- A discarded payload is taken as a whole, in whatever pieces it is read.
  pub discard_loop_lem :
      (fuel n : ℕ) (xs rest out : List ℕ) (s : B.State)
      → length xs ≡ n
      → n ≤ fuel
      → discard_loop B fuel n (conn B (xs ++ rest) out s) ≡ (ok tt, conn B rest out s)
  unfolding discard_loop
  discard_loop_lem fuel zero [] rest out s e le = refl
  discard_loop_lem fuel zero (x ∷ xs) rest out s e le = absurd (omega arith)
  discard_loop_lem zero (suc n) xs rest out s e le = absurd (omega arith)
  discard_loop_lem (suc fuel) (suc n) xs rest out s e le =
      let k : ℕ = min (suc n) 8192 in
      let front : length (take k xs) ≡ k = omega (arith, length-take k xs) in
      let whole : xs ++ rest ≡ take k xs ++ (drop k xs ++ rest) =
        ap (λ ys. ys ++ rest) (sym (take-append-drop k xs))
        ∙ append_assoc (take k xs) (drop k xs) rest in
      rw (whole, read_exact_lem B k (take k xs) (drop k xs ++ rest) out s front)
        (discard_loop_lem fuel (suc n - k) (drop k xs) rest out s (omega (arith, length-drop k xs))
          (omega arith))

  -- A request is answered, and what follows it is left; or its call of the backend failed, and nothing
  -- is answered.
  pub data Step (P : B.State → Type 0) (rest before out : List ℕ)
      (r : Result NbdError Flow × Connection B) : Type 0 where
    answered :
        (s : B.State) → r ≡ (ok next_request, conn B rest out s) → P s → Step P rest before out r
    stopped : (e : Error) → r.0 ≡ err (backend e) → r.1.output ≡ before → Step P rest before out r

  replied :
      (P : B.State → Type 0) (rest out : List ℕ) (error handle : ℕ) (s : B.State)
      → P s
      → Step P rest out
          (out ++ answer_header error handle)
          (reply B error handle (conn B rest out s))
  replied P rest out error handle s p =
      answered s (ap (λ o. (ok next_request, conn B rest o s)) (joined out error handle)) p

  module _ (size : ℕ) (D : IsDisk B size) where
    read_served :
        (f : ℕ → ℕ) (handle offset len : ℕ) (rest out : List ℕ) (s : B.State)
        → D.Holds f s
        → Step
            (D.Holds f)
            rest
            out
            (out ++ answer size f handle (read offset len))
            (serve_read B size (request_of handle (read offset len)) (conn B rest out s))
    read_served f handle offset len rest out s h = elim (Bool-cases (leb (offset + len) size)) [
      | inr beyond ↦
          rw (bounds_ok_lem size offset len D.size_fits, beyond)
            (replied (D.Holds f) rest out err_invalid handle s h)
      | inl inside ↦
          let (value, still) = D.reads f s offset len h (leb→le _ _ inside) in
          rw (bounds_ok_lem size offset len D.size_fits, inside, value)
            (answered _
              (ap (λ o. (ok next_request, conn B rest o (B.read_at offset len s).1))
                (ap (λ o. o ++ bytes_from f offset len) (joined out 0 handle)
                  ∙ append_assoc out (answer_header 0 handle) (bytes_from f offset len)))
              still)
    ]

    -- What follows a call that changes the disk.
    after_call :
        (f : ℕ → ℕ) (handle : ℕ) (rest out : List ℕ) (r : Result Error (Unit {0}) × B.State)
        → Does B.State (D.Holds f) r
        → Step
            (D.Holds f)
            rest
            out
            (out ++ answer_header 0 handle)
            (continue (map_err backend r.0) (λ _. reply B 0 handle) (conn B rest out r.1))
    after_call f handle rest out r (done good h) =
        rw good (replied (D.Holds f) rest out 0 handle r.1 h)
    after_call f handle rest out r (failed e bad) = rw bad (stopped e refl refl)

    holding :
        (f : ℕ → ℕ) {r : Result Error (Unit {0}) × B.State}
        → Does B.State (λ t. D.Holds f t × D.Saved f t) r
        → Does B.State (D.Holds f) r
    holding f (done good (h, saved)) = done good h
    holding f (failed e bad) = failed e bad

    write_served :
        (f : ℕ → ℕ) (handle offset : ℕ) (bytes rest out : List ℕ) (s : B.State)
        → D.Holds f s
        → Step
            (D.Holds (effect size f (write offset bytes)))
            rest
            out
            (out ++ answer size f handle (write offset bytes))
            (serve_write B size
              (request_of handle (write offset bytes))
              (conn B (bytes ++ rest) out s))
    write_served f handle offset bytes rest out s h =
        elim (Bool-cases (leb (offset + length bytes) size)) [
          | inr beyond ↦
              rw
                (
                  bounds_ok_lem size offset (length bytes) D.size_fits,
                  beyond,
                  discard_loop_lem (length bytes) (length bytes) bytes rest out s refl
                      (omega arith),
                )
                (replied (D.Holds f) rest out err_invalid handle s h)
          | inl inside ↦
              rw
                (
                  bounds_ok_lem size offset (length bytes) D.size_fits,
                  inside,
                  read_exact_lem B (length bytes) bytes rest out s refl,
                )
                (after_call (overwrite f offset bytes) handle rest out (B.write_at offset bytes s)
                  (D.writes f s offset bytes h (leb→le _ _ inside)))
        ]

    unsupported_served :
        (f : ℕ → ℕ) (handle code offset len : ℕ) (rest out : List ℕ) (s : B.State)
        → D.Holds f s
        → 3 < code
        → Step (D.Holds f) rest out (out ++ answer_header err_unsupported handle) (
            serve_request B size
              (request_of handle (unsupported code offset len))
              (conn B rest out s))
    unfolding serve_request
    unsupported_served f handle code offset len rest out s h other =
        let answer = replied (D.Holds f) rest out err_unsupported handle s h in
        rw
          (
            differs code 0 (omega arith),
            differs code 1 (omega arith),
            differs code 2 (omega arith),
            differs code 3 (omega arith),
          )
          (elim (Bool-cases (code == 4 || code == 6)) [
            | inl trim ↦ rw trim (elim (Bool-cases (ltb 0 len)) [
              | inl some_bytes ↦ rw some_bytes answer
              | inr no_bytes ↦ rw no_bytes answer
            ])
            | inr unknown ↦ rw unknown answer
          ])

    step :
        (f : ℕ → ℕ) (handle : ℕ) (c : Command) (rest out : List ℕ) (s : B.State)
        → D.Holds f s
        → IsOther c
        → Step
            (D.Holds (effect size f c))
            rest
            out
            (out ++ answer size f handle c)
            (serve_request B size (request_of handle c) (conn B (payload_of c ++ rest) out s))
    unfolding serve_request
    step f handle (read offset len) rest out s h other =
        read_served f handle offset len rest out s h
    step f handle (write offset bytes) rest out s h other =
        write_served f handle offset bytes rest out s h
    step f handle flush rest out s h other =
        after_call f handle rest out (B.flush s) (holding f (D.flushes f s h))
    step f handle (unsupported code offset len) rest out s h other =
        unsupported_served f handle code offset len rest out s h other

    -- What a connection comes to: every command is answered, and a disconnection has saved the disk; or
    -- the backend fails at the one behind the first `n`, and the connection breaks.
    abbrev Ends : Option ℕ → (ℕ → ℕ) → B.State → Type 0
    Ends none f s = Unit {0}
    Ends (some handle) f s = D.Saved f s

    pub data Outcome (last : Option ℕ) (f : ℕ → ℕ) (sents : List Sent) (out : List ℕ)
        (r : Result NbdError (Unit {0}) × Connection B) : Type 0 where
      finished :
          r.0 ≡ ok tt
          → r.1.output ≡ out ++ answers size f sents
          → D.Holds (effects size f sents) r.1.state
          → Ends last (effects size f sents) r.1.state
          → Outcome last f sents out r
      broken :
          (n : ℕ) (e : Error)
          → n ≤ length sents
          → r.0 ≡ err (backend e)
          → r.1.output ≡ out ++ answers size f (take n sents)
          → Outcome last f sents out r

    behind :
        {last : Option ℕ} (f : ℕ → ℕ) (t : Sent) (sents : List Sent) (out : List ℕ)
        (r : Result NbdError (Unit {0}) × Connection B)
        → Outcome last (effect size f t.command) sents (out ++ answer size f t.handle t.command) r
        → Outcome last f (t ∷ sents) out r
    unfolding answers effects
    behind f t sents out r (finished good output h saved) =
        finished good (output ∙ append_assoc out (answer size f t.handle t.command) _) h saved
    behind f t sents out r (broken n e le bad output) =
        broken (suc n) e (omega arith) bad
          (output ∙ append_assoc out (answer size f t.handle t.command) _)

    ending :
        (last : Option ℕ) (fuel : ℕ) (f : ℕ → ℕ) (out : List ℕ) (s : B.State)
        → D.Holds f s
        → IsClosing last
        → Outcome last f [] out (serve_loop B size (suc fuel) (conn B (closing last) out s))
    unfolding serve_loop serve_request read_from closing answers effects
    ending none fuel f out s h fits = finished refl (sym (append-nil out)) h tt
    ending (some handle) fuel f out s h fits =
        rw
          (read_from-header B 0
            (record { command = cmd_disc; handle = handle; offset = 0; len = 0 }) [] out s
            (omega arith) (omega arith, fits, omega arith, omega arith))
          (disconnect (B.flush s) (D.flushes f s h))
      where
        disconnect :
            (r : Result Error (Unit {0}) × B.State)
            → Does B.State (λ t. D.Holds f t × D.Saved f t) r
            → Outcome (some handle) f [] out (
                continue
                  (continue (map_err backend r.0) (λ _. pure disconnected) (conn B [] out r.1)).0
                  (go_on B (serve_loop B size fuel))
                  (continue (map_err backend r.0) (λ _. pure disconnected) (conn B [] out r.1)).1)
        disconnect r (done good (h', saved)) =
            rw good (finished refl (sym (append-nil out)) h' saved)
        disconnect r (failed e bad) = rw bad (broken 0 e (omega arith) refl (sym (append-nil out)))

    after :
        {last : Option ℕ} (f : ℕ → ℕ) (t : Sent) (sents : List Sent) (rest out : List ℕ)
        (loop : Action B (Unit {0})) (r : Result NbdError Flow × Connection B)
        → ((s : B.State)
            → D.Holds (effect size f t.command) s
            → Outcome last
                (effect size f t.command)
                sents
                (out ++ answer size f t.handle t.command)
                (loop (conn B rest (out ++ answer size f t.handle t.command) s)))
        → Step
            (D.Holds (effect size f t.command))
            rest
            out
            (out ++ answer size f t.handle t.command)
            r
        → Outcome last f (t ∷ sents) out (continue r.0 (go_on B loop) r.1)
    after f t sents rest out loop r further (answered s e h) =
        rw e (behind f t sents out _ (further s h))
    after f t sents rest out loop r further (stopped e bad output) =
        unfold answers in rw bad (broken 0 e (omega arith) refl (output ∙ sym (append-nil out)))

    session :
        (sents : List Sent) (last : Option ℕ) (fuel : ℕ) (f : ℕ → ℕ) (out : List ℕ) (s : B.State)
        → D.Holds f s
        → AllSent sents
        → IsClosing last
        → length sents < fuel
        → Outcome last f sents out (serve_loop B size fuel (conn B (stream sents last) out s))
    unfolding stream serve_loop
    session sents last zero f out s h all fits le = absurd (omega arith)
    session [] last (suc fuel) f out s h all fits le = ending last fuel f out s h fits
    session (t ∷ sents) last (suc fuel) f out s h ((hf, hr, ho), all) fits le =
        let rest : List ℕ = payload_of t.command ++ stream sents last in
        rw (read_from-header B t.flags (request_of t.handle t.command) rest out s hf hr) (
          after f t sents (stream sents last) out (serve_loop B size fuel)
            (serve_request B size (request_of t.handle t.command) (conn B rest out s))
            (λ s' h'.
              session sents last fuel (effect size f t.command) _ s' h' all fits (omega arith))
            (step f t.handle t.command (stream sents last) out s h ho))

    -- Any commands that a client sends, with payloads of any length, and its end of the stream or request to
    -- disconnect behind them: either every command is answered in order as the disk answers it, the disk
    -- goes through their effects, and the connection ends well; or the backend fails, the commands before
    -- the failure are answered, and the connection ends with its error.
    pub serve-stream :
        (sents : List Sent) (last : Option ℕ) (f : ℕ → ℕ) (out : List ℕ) (s : B.State)
        → D.Holds f s
        → AllSent sents
        → IsClosing last
        → Outcome last f sents out (serve B size (conn B (stream sents last) out s))
    unfolding serve
    serve-stream sents last f out s h all fits =
        session sents last (suc (length (stream sents last))) f out s h all fits
          (omega (length-stream sents last, arith))
