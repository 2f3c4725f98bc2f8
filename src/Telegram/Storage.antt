-- ===== src/Telegram/Storage.antt =====
-- `TelegramStorage` as a backend, and its superblocks.
use telegram_block_device.Prelude.{
  ℕ, zero, suc, ◌+◌, ◌/◌, ◌%◌, Bool, true, false, Option, none, some, List, [], ◌∷◌, ◌++◌, Result,
  ok, err, Exec, ◌>>=◌, ◌>>◌, pure, lift, ok_or, ensure, map_err, length, concat, ltb,
  if◌then◌else◌,
}
use telegram_block_device.Prelude.Bytes.{Text, codes, text_eq, hex16}
use telegram_block_device.Errors.{
  Error, format, message_ids_empty, no_media, message_not_found, payload_checksum_mismatch,
}
use telegram_block_device.Format.Digest.{Digest, sha256_hex}
use telegram_block_device.Format.Envelope.{decode}
use telegram_block_device.Format.Manifest.{RemoteObjectRef}
use telegram_block_device.Format.Tree.{chunks}
use telegram_block_device.Format.Superblock.{
  Superblock, SuperblockJson, text_prefix, strip_prefix, decode_text,
}
use telegram_block_device.Backend.{RemoteBackend}
use telegram_block_device.Telegram.{Chat, Message}

-- A number as `format!` shows it: 20 digits are enough for a u64.
decimal_digits : ℕ → ℕ → Text
decimal_digits zero n = []
decimal_digits (suc k) n =
    let front = decimal_digits k (n / 10) in
    if ltb n 10 then (48 + n) ∷ [] else front ++ ((48 + n % 10) ∷ [])

abbrev decimal : ℕ → Text
decimal n = decimal_digits 20 n

unfoldable pub file_name : ℕ → ℕ → Text
unfolding decimal_digits hex16
file_name object_id generation =
    codes "tgdrive-" ++ hex16 object_id ++ codes "-" ++ hex16 generation ++ codes ".bin"

unfoldable pub caption_of : ℕ → ℕ → Text → Text
unfolding decimal_digits
caption_of object_id generation sha256 =
    codes "TGDRIVE object="
    ++ decimal object_id
    ++ codes " generation="
    ++ decimal generation
    ++ codes " sha256="
    ++ sha256

-- `chunks(100)`
abbrev pub hundreds : List ℕ → List (List ℕ)
hundreds ids = chunks (length ids) 100 ids

-- The message that a fetch of one number returns.
abbrev pub first : List (Option (List ℕ)) → Option (List ℕ)
first [] = none
first (m ∷ ms) = m

abbrev is_some : Option Text → Bool
is_some none = false
is_some (some rest) = true

-- `starts_with`
abbrev pub is_superblock : Text → Bool
is_superblock text = is_some (strip_prefix text_prefix text)

abbrev pub is_above : ℕ → Option (ℕ × Text) → Bool
is_above generation none = true
is_above generation (some (g, text)) = ltb g generation

abbrev pub keep_better : Option (ℕ × Text) → Text → Result Error Superblock → Option (ℕ × Text)
keep_better best text (err e) = best
keep_better best text (ok b) =
    if is_above b.manifest_generation best then some (b.manifest_generation, text) else best

abbrev pub if_ok : Text → Result Error Superblock → Option Text
if_ok text (err e) = none
if_ok text (ok b) = some text

module _ (T : Chat) where
  abbrev pub Call : Type 0 → Type 0
  Call A = Exec Error T.State A

  abbrev pub download_message_media : Message T.Media → Call (List ℕ)
  download_message_media message = do
    media ← lift (ok_or message.media (no_media message.id))
    pieces ← T.iter_download media
    pure (concat pieces)

  -- The inner loop of `get_messages_by_id`.
  unfoldable pub collect : List (Option (Message T.Media)) → Call (List (Option (List ℕ)))
  collect [] = pure []
  collect (none ∷ messages) = do rest ← collect messages; pure (none ∷ rest)
  collect (some message ∷ messages) = do
    bytes ← download_message_media message
    rest ← collect messages
    pure (some bytes ∷ rest)

  -- The outer loop.
  unfoldable pub get_chunks : List (List ℕ) → Call (List (Option (List ℕ)))
  unfolding collect
  get_chunks [] = pure []
  get_chunks (ids ∷ chunks) = do
    messages ← T.get_messages_by_id ids
    found ← collect messages
    rest ← get_chunks chunks
    pure (found ++ rest)

  unfoldable pub get_messages_by_id : List ℕ → Call (List (Option (List ℕ)))
  unfolding get_chunks chunks
  get_messages_by_id ids = get_chunks (hundreds ids)

  unfoldable pub delete_chunks : List (List ℕ) → Call ℕ
  delete_chunks [] = pure 0
  delete_chunks (ids ∷ chunks) = do
    n ← T.delete_messages ids
    rest ← delete_chunks chunks
    pure (n + rest)

  unfoldable pub delete_messages : List ℕ → Call ℕ
  unfolding delete_chunks chunks
  delete_messages ids = delete_chunks (hundreds ids)

  -- A chat without a pinned message answers with an error of its own.
  abbrev pub or_none :
      Result Error (Option (Message T.Media)) → Result Error (Option (Message T.Media))
  or_none (ok m) = ok m
  or_none (err message_ids_empty) = ok none
  or_none (err e) = err e

  abbrev pub pinned_message : Call (Option (Message T.Media))
  pinned_message s = (or_none (T.get_pinned_message s).0, (T.get_pinned_message s).1)

  abbrev pub text_of : Option (Message T.Media) → Option Text
  text_of none = none
  text_of (some m) = some m.text

  abbrev pub pinned_superblock_text : Call (Option Text)
  pinned_superblock_text = do m ← pinned_message; pure (text_of m)

  abbrev pub send_superblock_backup : Text → Call ℕ
  send_superblock_backup text = T.send_message text none

  abbrev pub pin_new : Text → Call ℕ
  pin_new text = do
    id ← T.send_message text none
    T.pin_message id
    backup ← send_superblock_backup text
    pure id

  abbrev pub upsert_over : Text → Option (Message T.Media) → Call ℕ
  upsert_over text none s = pin_new text s
  upsert_over text (some m) s =
      if is_superblock m.text
      then (do backup ← send_superblock_backup text; pure m.id) s
      else pin_new text s

  unfoldable pub upsert_pinned_superblock : Text → Call ℕ
  unfolding strip_prefix
  upsert_pinned_superblock text = do m ← pinned_message; upsert_over text m

  module _ (serde : SuperblockJson) where
    -- One message of the scan.
    abbrev pub better : Option (ℕ × Text) → Text → Option (ℕ × Text)
    better best text = keep_better best text (decode_text serde text)

    unfoldable pub scan : Option (ℕ × Text) → List (Message T.Media) → Option (ℕ × Text)
    unfolding decode_text
    scan best [] = best
    scan best (m ∷ ms) = scan (better best m.text) ms

    abbrev pub readable : Option Text → Option Text
    readable none = none
    readable (some text) = if_ok text (decode_text serde text)

    abbrev pub or_pinned : Option (ℕ × Text) → Call (Option Text)
    or_pinned (some (generation, text)) = pure (some text)
    or_pinned none = do text ← pinned_superblock_text; pure (readable text)

    unfoldable pub recover_superblock_text : ℕ → Call (Option Text)
    unfolding scan decode_text
    recover_superblock_text scan_limit = do
      messages ← T.iter_messages scan_limit
      or_pinned (scan none messages)

  module _ (D : Digest) where
    unfoldable pub send_object : ℕ → ℕ → List ℕ → Text → Call RemoteObjectRef
    unfolding decode file_name caption_of
    send_object object_id generation payload sha256 = do
      envelope ← lift (map_err format (decode D payload object_id generation))
      uploaded ← T.upload_stream payload (file_name object_id generation)
      id ← T.send_message (caption_of object_id generation sha256) (some uploaded)
      pure (record {
        chat_id = T.dialog_id;
        message_id = id;
        object_id = object_id;
        generation = generation;
        sha256 = sha256;
      })

    unfoldable pub fetch_object : RemoteObjectRef → Call (List ℕ)
    unfolding get_messages_by_id decode sha256_hex text_eq
    fetch_object r = do
      messages ← get_messages_by_id (r.message_id ∷ [])
      payload ← lift (ok_or (first messages) (message_not_found r.message_id))
      envelope ← lift (map_err format (decode D payload r.object_id r.generation))
      lift (ensure (text_eq (sha256_hex D payload) r.sha256) payload_checksum_mismatch)
      pure payload

    abbrev pub telegram : RemoteBackend
    telegram = record {
      State = T.State;
      send_object = send_object;
      fetch_object = fetch_object;
      get_messages_by_id = get_messages_by_id;
    }
