-- ===== src/Nbd/Ends/Takes.antt =====
-- Actions on a connection that take bytes from it, as the helpers of crates/tgdrive-nbd/src/server.rs do,
-- and do not run out of rounds.
use telegram_block_device.Prelude.{
  ℕ, ◌+◌, ◌≤◌, ◌≢◌, inl, inr, Bool, true, false, List, Result, ok, err, Exec, ◌>>=◌, continue,
  ensure, map_err, length, length-drop, arith, ltb, if◌then◌else◌, Bool-cases,
}
use telegram_block_device.Errors.{Error}
use telegram_block_device.Nbd.{NbdBackend, NbdError, Connection, loop_cut, backend}
use telegram_block_device.Nbd.Stream.{
  Action, read_exact, read_int, write_all, write_int, in_backend,
}

module _ (B : NbdBackend) where
  -- An action that ends has taken `n` bytes at least, and one that raises does not lack rounds.
  abbrev pub Good : {A : Type 0} → ℕ → Connection B → Result NbdError A × Connection B → Type 0
  Good n c (ok a, d) = length d.input + n ≤ length c.input
  Good n c (err e, d) = e ≢ loop_cut

  abbrev pub Takes : {A : Type 0} → ℕ → Action B A → Type 0
  Takes n m = (c : Connection B) → Good n c (m c)

  weaken :
      {A : Type 0} (n k : ℕ) (c d : Connection B) (r : Result NbdError A × Connection B)
      → length d.input + n ≤ length c.input
      → Good k d r
      → Good (n + k) c r
  weaken n k c d (ok a, e) le g = omega arith
  weaken n k c d (err x, e) le g = g

  Good-continue :
      {A A' : Type 0} (n k : ℕ) (c : Connection B) (r : Result NbdError A × Connection B)
      (f : A → Action B A')
      → Good n c r
      → ((a : A) → Takes k (f a))
      → Good (n + k) c (continue r.0 f r.1)
  Good-continue n k c (ok a, d) f g h = weaken n k c d (f a d) g (h a d)
  Good-continue n k c (err e, d) f g h = g

  weaken_zero :
      {A : Type 0} (n : ℕ) (c : Connection B) (r : Result NbdError A × Connection B)
      → Good (n + 0) c r
      → Good n c r
  weaken_zero n c (ok a, d) g = omega arith
  weaken_zero n c (err e, d) g = g

  drop_to :
      {A : Type 0} (n : ℕ) (c : Connection B) (r : Result NbdError A × Connection B)
      → Good n c r
      → Good 0 c r
  drop_to n c (ok a, d) g = omega arith
  drop_to n c (err e, d) g = g

  pub Takes-bind :
      {A A' : Type 0} (n k : ℕ) (m : Action B A) (f : A → Action B A')
      → Takes n m
      → ((a : A) → Takes k (f a))
      → Takes (n + k) (m >>= f)
  Takes-bind n k m f g h c = Good-continue n k c (m c) f (g c) h

  pub read_exact-Takes : (n : ℕ) → Takes n (read_exact B n)
  unfolding read_exact
  read_exact-Takes n c = elim (Bool-cases (ltb (length c.input) n)) [
    | inl short ↦ rw short (λ h. cc)
    | inr long ↦
        let le : n ≤ length c.input = ground arith in rw long (omega (arith, length-drop n c.input))
  ]

  pub read_int-Takes : (w : ℕ) → Takes w (read_int B w)
  unfolding read_int
  read_int-Takes w c =
      weaken_zero w c _
        (Takes-bind w 0 (read_exact B w) _ (read_exact-Takes w) (λ bytes d. omega arith) c)

  pub pure-Takes : {A : Type 0} (a : A) → Takes 0 (λ c. (ok a, c))
  pure-Takes a c = omega arith

  write_all-Takes : (bytes : List ℕ) → Takes 0 (write_all B bytes)
  write_all-Takes bytes c = omega arith

  mapped :
      {A : Type 0} (c : Connection B) (s : B.State) (r : Result Error A)
      → Good 0 c (map_err backend r, record c { state = s })
  mapped c s (ok a) = omega arith
  mapped c s (err e) = λ h. cc

  pub in_backend-Takes : {A : Type 0} (m : Exec Error B.State A) → Takes 0 (in_backend B m)
  in_backend-Takes m c = mapped c (m c.state).1 (m c.state).0

  -- Steps that need not take anything.
  pub chain :
      {A A' : Type 0} (m : Action B A) (f : A → Action B A')
      → Takes 0 m
      → ((a : A) → Takes 0 (f a))
      → Takes 0 (m >>= f)
  chain m f g h c = weaken_zero 0 c _ (Takes-bind 0 0 m f g h c)

  pub any : {A : Type 0} (n : ℕ) (m : Action B A) → Takes n m → Takes 0 m
  any n m g c = drop_to n c (m c) (g c)

  pub if-Takes :
      {A : Type 0} (b : Bool) (m k : Action B A)
      → Takes 0 m
      → Takes 0 k
      → Takes 0 (if b then m else k)
  if-Takes true m k g h = g
  if-Takes false m k g h = h

  write_int-Takes : (w n : ℕ) → Takes 0 (write_int B w n)
  write_int-Takes w n c = omega arith

  pub if-Good :
      {A : Type 0} (n : ℕ) (c : Connection B) (b : Bool) (x y : Result NbdError A × Connection B)
      → Good n c x
      → Good n c y
      → Good n c (if b then x else y)
  if-Good n c true x y g h = g
  if-Good n c false x y g h = h

  pub ensure-Takes : (b : Bool) (e : NbdError) → e ≢ loop_cut → Takes 0 (λ c. (ensure b e, c))
  ensure-Takes true e ne c = omega arith
  ensure-Takes false e ne c = ne

  -- An action that does not lack rounds.
  abbrev pub NotCut : {A : Type 0} → Result NbdError A × Connection B → Type 0
  NotCut (ok a, d) = Unit {0}
  NotCut (err e, d) = e ≢ loop_cut
