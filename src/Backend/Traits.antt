-- ===== src/Backend/Traits.antt =====
-- Where objects are kept: crates/tgdrive-core/src/backend.rs. The traits are records of operations
-- over a state of their own; `Channel` says what the device relies on.
use telegram_block_device.Prelude.{ℕ, ◌≡◌, Option, none, some, List, [], ◌∷◌, ok, Exec, true}
use telegram_block_device.Prelude.Bytes.{Text, text_eq}
use telegram_block_device.Format.Digest.{Digest, sha256_hex}
use telegram_block_device.Format.Envelope.{ObjectEnvelope, decode}
use telegram_block_device.Format.Manifest.{RemoteObjectRef, Manifest}
use telegram_block_device.Errors.{Error}

-- `trait RemoteBackend`
pub record RemoteBackend : Type 1 where
  pub State : Type 0
  pub send_object : ℕ → ℕ → List ℕ → Text → Exec Error State RemoteObjectRef
  pub fetch_object : RemoteObjectRef → Exec Error State (List ℕ)
  pub get_messages_by_id : List ℕ → Exec Error State (List (Option (List ℕ)))

-- `trait ManifestCommitter`, on the state of the backend: manifest, device size, sector size and
-- object size.
abbrev pub ManifestCommitter : RemoteBackend → Type 0
ManifestCommitter B = Manifest → ℕ → ℕ → ℕ → Exec Error B.State (Unit {0})

-- Every answer with bytes is the message of the number that it stands at.
abbrev pub AnswersFrom : (ℕ → Option (List ℕ)) → List ℕ → List (Option (List ℕ)) → Type 0
AnswersFrom f [] found = Unit {0}
AnswersFrom f (id ∷ ids) [] = Unit {0}
AnswersFrom f (id ∷ ids) (none ∷ found) = AnswersFrom f ids found
AnswersFrom f (id ∷ ids) (some bytes ∷ found) = (f id ≡ some bytes) × AnswersFrom f ids found

-- A channel keeps every message that it has accepted, under an identifier of its own.
pub record Channel (B : RemoteBackend) : Type 1 where
  pub message : B.State → ℕ → Option (List ℕ)
  -- No call loses or changes a message.
  pub send_keeps :
      (id generation : ℕ) (payload : List ℕ) (sha : Text) (s : B.State) (m : ℕ) (bytes : List ℕ)
      → message s m ≡ some bytes
      → message (B.send_object id generation payload sha s).1 m ≡ some bytes
  pub fetch_keeps :
      (r : RemoteObjectRef) (s : B.State) (m : ℕ) (bytes : List ℕ)
      → message s m ≡ some bytes
      → message (B.fetch_object r s).1 m ≡ some bytes
  pub get_keeps :
      (ids : List ℕ) (s : B.State) (m : ℕ) (bytes : List ℕ)
      → message s m ≡ some bytes
      → message (B.get_messages_by_id ids s).1 m ≡ some bytes
  -- A payload that was accepted stands under the reference that is returned.
  pub send_stores :
      (id generation : ℕ) (payload : List ℕ) (sha : Text) (s : B.State) (r : RemoteObjectRef)
      → (B.send_object id generation payload sha s).0 ≡ ok r
      → message (B.send_object id generation payload sha s).1 r.message_id ≡ some payload
  -- The reference names the payload as the call did.
  pub send_names :
      (id generation : ℕ) (payload : List ℕ) (sha : Text) (s : B.State) (r : RemoteObjectRef)
      → (B.send_object id generation payload sha s).0 ≡ ok r
      → (r.object_id ≡ id) × (r.generation ≡ generation) × (r.sha256 ≡ sha)
  -- What a read returns is what stands there; it may also return nothing.
  pub get_reads :
      (ids : List ℕ) (s : B.State) (found : List (Option (List ℕ)))
      → (B.get_messages_by_id ids s).0 ≡ ok found
      → AnswersFrom (message s) ids found

-- A channel that can be read: the fetch of an envelope that is there succeeds, if its reference names
-- it and has its checksum.
pub record IsReadable (D : Digest) (B : RemoteBackend) (C : Channel B) : Type 0 where
  pub fetch_reads :
      (r : RemoteObjectRef) (s : B.State) (bytes : List ℕ) (e : ObjectEnvelope)
      → C.message s r.message_id ≡ some bytes
      → decode D bytes r.object_id r.generation ≡ ok e
      → text_eq (sha256_hex D bytes) r.sha256 ≡ true
      → (B.fetch_object r s).0 ≡ ok bytes
