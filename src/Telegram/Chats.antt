-- ===== src/Telegram/Chats.antt =====
-- What the client relies on in a chat.
use telegram_block_device.Prelude.{
  ℕ, ◌≤◌, ◌≡◌, Option, none, some, List, [], ◌∷◌, concat, length, ok, ◌==◌, if◌then◌else◌,
}
use telegram_block_device.Prelude.Bytes.{Text}
use telegram_block_device.Telegram.{Chat, Message}

-- A chat without deletions: what was sent stays under its number, and reading changes no message.
pub record Keeps (T : Chat) : Type 0 where
  pub message : T.State → ℕ → Option (Message T.Media)
  pub file : T.Media → List ℕ
  pub content : T.Upload → List ℕ
  pub upload_keeps :
      (bytes : List ℕ) (name : Text) (s : T.State) (m : ℕ)
      → message (T.upload_stream bytes name s).1 m ≡ message s m
  pub uploads :
      (bytes : List ℕ) (name : Text) (s : T.State) (u : T.Upload)
      → (T.upload_stream bytes name s).0 ≡ ok u
      → content u ≡ bytes
  pub send_keeps :
      (text : Text) (u : Option T.Upload) (s : T.State) (m : ℕ) (x : Message T.Media)
      → message s m ≡ some x
      → message (T.send_message text u s).1 m ≡ some x
  -- A new message has a number that no message had.
  pub sends_fresh :
      (text : Text) (u : Option T.Upload) (s : T.State) (id : ℕ)
      → (T.send_message text u s).0 ≡ ok id
      → message s id ≡ none
  pub sends :
      (text : Text) (s : T.State) (id : ℕ)
      → (T.send_message text none s).0 ≡ ok id
      → message (T.send_message text none s).1 id
        ≡ some (record { id = id; text = text; media = none })
  pub sends_file :
      (text : Text) (u : T.Upload) (s : T.State) (id : ℕ)
      → (T.send_message text (some u) s).0 ≡ ok id
      → (media : T.Media) × (message (T.send_message text (some u) s).1 id
          ≡ some (record { id = id; text = text; media = some media }))
        × (file media ≡ content u)
  pub pin_keeps : (id : ℕ) (s : T.State) (m : ℕ) → message (T.pin_message id s).1 m ≡ message s m
  pub pinned_keeps : (s : T.State) (m : ℕ) → message (T.get_pinned_message s).1 m ≡ message s m
  pub get_keeps :
      (ids : List ℕ) (s : T.State) (m : ℕ) → message (T.get_messages_by_id ids s).1 m ≡ message s m
  pub download_keeps :
      (media : T.Media) (s : T.State) (m : ℕ) → message (T.iter_download media s).1 m ≡ message s m

abbrev pub without {ℓ} : {A : Type ℓ} → ℕ → (ℕ → Option A) → ℕ → Option A
without id f m = if m == id then none else f m

-- The answers to a list of numbers, in their order: grammers answers a number where it stands first, and
-- with no message where it is asked for again.
abbrev pub once {ℓ} : {A : Type ℓ} → (ℕ → Option A) → List ℕ → List (Option A)
once f [] = []
once f (id ∷ ids) = f id ∷ once (without id f) ids

-- A chat that answers: the messages of a hundred numbers at most, in their order, and every file.
pub record Answers (T : Chat) (K : Keeps T) : Type 0 where
  pub gets :
      (ids : List ℕ) (s : T.State)
      → length ids ≤ 100
      → (T.get_messages_by_id ids s).0 ≡ ok (once (K.message s) ids)
  pub downloads :
      (media : T.Media) (s : T.State)
      → (pieces : List (List ℕ)) × ((T.iter_download media s).0 ≡ ok pieces)
        × (concat pieces ≡ K.file media)
