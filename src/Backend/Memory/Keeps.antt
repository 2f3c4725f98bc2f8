-- ===== src/Backend/Memory/Keeps.antt =====
-- The backend in memory keeps what is sent: any number of calls of `send_object` of
-- crates/tgdrive-core/src/backend.rs.
use telegram_block_device.Prelude.{
  ℕ, suc, ◌+◌, ◌^◌, ◌<◌, ◌≡◌, ◌≢◌, refl, ◌∙◌, ok, List, [], ◌∷◌, length, ◌==◌, ==_refl, arith,
  false, some, Exec, Result, continue, ◌>>=◌, pure,
}
use telegram_block_device.Prelude.Bytes.{Text}
use telegram_block_device.Errors.{Error}
use telegram_block_device.Format.Manifest.{RemoteObjectRef}
use telegram_block_device.Backend.Memory.{MemoryBackend, send_object, fetch_object}

-- The arguments of a call.
pub record Sending : Type 0 where
  pub object_id : ℕ
  pub generation : ℕ
  pub payload : List ℕ
  pub sha256 : Text

-- Calls one after the other.
abbrev pub send_all : List Sending → Exec Error MemoryBackend (List RemoteObjectRef)
send_all [] = pure []
send_all (x ∷ xs) = do
  r ← send_object x.object_id x.generation x.payload x.sha256
  rs ← send_all xs
  pure (r ∷ rs)

abbrev pub fetch_all : List RemoteObjectRef → Exec Error MemoryBackend (List (List ℕ))
fetch_all [] = pure []
fetch_all (r ∷ rs) = do bytes ← fetch_object r; rest ← fetch_all rs; pure (bytes ∷ rest)

abbrev pub payloads : List Sending → List (List ℕ)
payloads [] = []
payloads (x ∷ xs) = x.payload ∷ payloads xs

differs : (a b : ℕ) → a ≢ b → (a == b) ≡ false
differs a b h = ground arith

-- What a run of calls comes to.
pub record Stored (xs : List Sending) (s : MemoryBackend)
    (r : Result Error (List RemoteObjectRef) × MemoryBackend) : Type 0 where
  pub refs : List RemoteObjectRef
  pub succeeds : r.0 ≡ ok refs
  pub fetched : (fetch_all refs r.1).0 ≡ ok (payloads xs)
  pub earlier : (m : ℕ) → m < s.next_message_id → r.1.messages m ≡ s.messages m

abbrev after : Sending → MemoryBackend → MemoryBackend
after x s = (send_object x.object_id x.generation x.payload x.sha256 s).1

abbrev sent : Sending → MemoryBackend → RemoteObjectRef
sent x s = record {
  chat_id = s.chat_id;
  message_id = s.next_message_id;
  object_id = x.object_id;
  generation = x.generation;
  sha256 = x.sha256;
}

one_more :
    (x : Sending) (xs : List Sending) (s : MemoryBackend)
    (r : Result Error (List RemoteObjectRef) × MemoryBackend)
    → s.next_message_id + suc (length xs) < 2 ^ 32
    → Stored xs (after x s) r
    → Stored (x ∷ xs) s (continue r.0 (λ rs. pure (sent x s ∷ rs)) r.1)
unfolding send_object fetch_object
one_more x xs s r fits h =
    let next : (after x s).next_message_id ≡ s.next_message_id + 1 = omega arith in
    let here : r.1.messages s.next_message_id ≡ some x.payload =
      h.earlier s.next_message_id (omega (arith, next)) ∙ (rw (==_refl s.next_message_id) refl) in
    rw h.succeeds (record {
      refs = sent x s ∷ h.refs;
      succeeds = refl;
      fetched = rw (here, h.fetched) refl;
      earlier = λ m lt.
          h.earlier m (omega (arith, next)) ∙ (rw (differs m s.next_message_id (omega arith)) refl);
    })

-- While the counter of messages does not wrap, calls of `send_object` one after the other succeed; after
-- all of them, every payload is fetched under the reference that its call returned, and every message with
-- a number below the first new one is as it was.
pub fetch_all-send_all :
    (xs : List Sending) (s : MemoryBackend)
    → s.next_message_id + length xs < 2 ^ 32
    → Stored xs s (send_all xs s)
unfolding send_object
fetch_all-send_all [] s fits = record {
  refs = [];
  succeeds = refl;
  fetched = refl;
  earlier = λ m lt. refl;
}
fetch_all-send_all (x ∷ xs) s fits =
    one_more x xs s (send_all xs (after x s)) fits (fetch_all-send_all xs (after x s) (omega arith))
