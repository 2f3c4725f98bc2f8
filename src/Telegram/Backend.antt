-- ===== src/Telegram/Backend.antt =====
-- `TelegramStorage` is what the block device relies on: a channel that can be read, with a committer that
-- loses no message.
use telegram_block_device.Prelude.{
  subst, concat, length, arith, ◌++◌, ℕ, ◌≡◌, refl, sym, ◌∙◌, ap, inl, inr, Option, none, some,
  List, [], ◌∷◌, map, Result, ok, err, Result-cases, and_then, ok_or, ok_injective,
}
use telegram_block_device.Format.Digest.{Digest}
use telegram_block_device.Format.Manifest.{ManifestJson}
use telegram_block_device.Format.Superblock.{SuperblockJson}
use telegram_block_device.Errors.{Error, no_media}
use telegram_block_device.Backend.{Channel, IsReadable, AnswersFrom}
use telegram_block_device.Telegram.{Chat, Message, TreeJson}
use telegram_block_device.Telegram.Chats.{Keeps, Answers, once, without}
use telegram_block_device.Telegram.Reads.{
  map-append, answered, get_messages_by_id-answered, read_all, get_messages_by_id_lem,
  get_messages_by_id-Exact, fetch_object-Exact,
}
use telegram_block_device.Telegram.Storage.{hundreds, fetch_object, telegram}
use telegram_block_device.Format.Tree.RoundTrip.{concat-chunks}
use telegram_block_device.Telegram.Manifests.{commit_manifest}
use telegram_block_device.Telegram.Safe.{commit_manifest-Safe}
use telegram_block_device.Device.Flush.Commit.{KeepsMessages}
use telegram_block_device.Telegram.Sends.{Later, send_object-Safe, send_object-Stands}

module _ (T : Chat) (K : Keeps T) where
  -- The file of a message, if there is one.
  abbrev pub file_of : Option T.Media → Option (List ℕ)
  file_of none = none
  file_of (some media) = some (K.file media)

  abbrev pub bytes_at : Option (Message T.Media) → Option (List ℕ)
  bytes_at none = none
  bytes_at (some m) = file_of m.media

  pub bytes_later :
      (before after : Option (Message T.Media)) (bytes : List ℕ)
      → ((x : Message T.Media) → before ≡ some x → after ≡ some x)
      → bytes_at before ≡ some bytes
      → bytes_at after ≡ some bytes
  bytes_later none after bytes later h = cc
  bytes_later (some x) after bytes later h = ap bytes_at (later x refl) ∙ h

  one_more :
      (media : Option T.Media) (e : Error) (ms : List (Option (Message T.Media)))
      (rest : Result Error (List (Option (List ℕ)))) (found : List (Option (List ℕ)))
      → and_then
          (and_then (ok_or media e) (λ x. ok (K.file x)))
          (λ bytes. and_then rest (λ r. ok (some bytes ∷ r)))
        ≡ ok found
      → ((r : List (Option (List ℕ))) → rest ≡ ok r → r ≡ map bytes_at ms)
      → found ≡ file_of media ∷ map bytes_at ms
  one_more none e ms rest found h known = cc
  one_more (some media) e ms (ok r) found h known =
      sym (ok_injective h) ∙ ap (λ t. some (K.file media) ∷ t) (known r refl)
  one_more (some media) e ms (err x) found h known = cc

  alone :
      (o : Option (Message T.Media)) (bytes : List ℕ)
      → bytes_at o ≡ some bytes
      → read_all T K (o ∷ []) ≡ ok (some bytes ∷ [])
  alone none bytes h = cc
  alone (some m) bytes h = with_media m.media h
    where
      with_media :
          (media : Option T.Media)
          → file_of media ≡ some bytes
          → and_then
              (and_then (ok_or media (no_media m.id)) (λ x. ok (K.file x)))
              (λ bytes. ok (some bytes ∷ []))
            ≡ ok (some bytes ∷ [])
      with_media none h = cc
      with_media (some media) h = ap (λ b. ok (b ∷ [])) h

  -- A list of messages that is read as a whole is read as the files of its messages.
  read_all_lem :
      (ms : List (Option (Message T.Media))) (found : List (Option (List ℕ)))
      → read_all T K ms ≡ ok found
      → found ≡ map bytes_at ms
  read_all_lem [] found = λ h. sym (ok_injective h)
  read_all_lem (none ∷ ms) found = elim (Result-cases (read_all T K ms)) [
    | inr (e, bad) ↦ rw bad (λ h. cc)
    | inl (rest, good) ↦
        rw good (λ h. sym (ok_injective h) ∙ ap (λ t. none ∷ t) (read_all_lem ms rest good))
  ]
  read_all_lem (some m ∷ ms) found =
      λ h. one_more m.media (no_media m.id) ms (read_all T K ms) found h (read_all_lem ms)

  -- An answer that comes from some of the messages comes from them all.
  once-AnswersFrom :
      (f g : ℕ → Option (Message T.Media)) (ids js : List ℕ) (found : List (Option (List ℕ)))
      → ((m : ℕ) (x : Message T.Media) → g m ≡ some x → f m ≡ some x)
      → AnswersFrom (λ m. bytes_at (f m)) js found
      → AnswersFrom (λ m. bytes_at (f m)) (ids ++ js) (map bytes_at (once g ids) ++ found)
  once-AnswersFrom f g [] js found sub h = h
  once-AnswersFrom f g (id ∷ ids) js found sub h =
      with_answer (bytes_at (g id)) refl
        (once-AnswersFrom f (without id g) ids js found (λ m x. ground (arith, sub m x)) h)
    where
      with_answer :
          (o : Option (List ℕ))
          → bytes_at (g id) ≡ o
          → AnswersFrom
              (λ m. bytes_at (f m))
              (ids ++ js)
              (map bytes_at (once (without id g) ids) ++ found)
          → AnswersFrom
              (λ m. bytes_at (f m))
              (id ∷ ids ++ js)
              (o ∷ map bytes_at (once (without id g) ids) ++ found)
      with_answer none e rest = rest
      with_answer (some bytes) e rest = (bytes_later (g id) (f id) bytes (sub id) e, rest)

  answered-AnswersFrom :
      (answers : Answers T K) (s : T.State) (cs : List (List ℕ))
      → AnswersFrom
          (λ m. bytes_at (K.message s m))
          (concat cs)
          (map bytes_at (answered T K answers s cs))
  answered-AnswersFrom answers s [] = tt
  answered-AnswersFrom answers s (ids ∷ cs) =
      rw (map-append bytes_at (once (K.message s) ids) (answered T K answers s cs)) (
        once-AnswersFrom (K.message s) (K.message s) ids (concat cs) _ (λ m x h. h)
          (answered-AnswersFrom answers s cs))

  hundreds-AnswersFrom :
      (answers : Answers T K) (s : T.State) (ids : List ℕ)
      → AnswersFrom
          (λ m. bytes_at (K.message s m))
          ids
          (map bytes_at (answered T K answers s (hundreds ids)))
  hundreds-AnswersFrom answers s ids =
      subst
        (λ js.
          AnswersFrom (λ m. bytes_at (K.message s m)) js
            (map bytes_at (answered T K answers s (hundreds ids))))
        (concat-chunks (length ids) 100 ids (omega arith) (omega arith))
        (answered-AnswersFrom answers s (hundreds ids))

  module _ (answers : Answers T K) (D : Digest) where
    pub telegram_channel : Channel (telegram T D)
    telegram_channel = record {
      message = λ s m. bytes_at (K.message s m);
      send_keeps = λ id generation payload sha s m bytes h.
          bytes_later _ _ bytes (send_object-Safe T K D id generation payload sha s m) h;
      fetch_keeps = λ r s m bytes h. ap bytes_at (fetch_object-Exact T K D r s m) ∙ h;
      get_keeps = λ ids s m bytes h. ap bytes_at (get_messages_by_id-Exact T K ids s m) ∙ h;
      send_stores = λ id generation payload sha s r h.
          let stands = send_object-Stands T K D id generation payload sha s r h in
          ap bytes_at stands.found ∙ ap some stands.same_file;
      send_names = λ id generation payload sha s r h.
          let stands = send_object-Stands T K D id generation payload sha s r h in
          (
            ap (λ q. q.object_id) stands.named,
            ap (λ q. q.generation) stands.named,
            ap (λ q. q.sha256) stands.named,
          );
      get_reads = λ ids s found h.
          subst (AnswersFrom (λ m. bytes_at (K.message s m)) ids)
            (sym (
              read_all_lem (answered T K answers s (hundreds ids)) found
                (sym (get_messages_by_id-answered T K answers ids s) ∙ h)))
            (hundreds-AnswersFrom answers s ids);
    }

    -- On a chat that answers and keeps its messages, the fetch of an envelope that stands in the chat
    -- under a reference with its identity and its checksum succeeds.
    pub telegram-IsReadable : IsReadable D (telegram T D) telegram_channel
    unfolding fetch_object telegram_channel
    telegram-IsReadable = record {
      fetch_reads = λ r s bytes e here decodes checksum.
          rw
            (
              (get_messages_by_id_lem T K answers (r.message_id ∷ []) s (tt, tt)).0,
              alone (K.message s r.message_id) bytes here,
              decodes,
              checksum,
            )
            refl;
    }

    pub still_there :
        {s t : T.State}
        → Later T K s t
        → (m : ℕ) (bytes : List ℕ) → telegram_channel.message s m ≡ some bytes
        → telegram_channel.message t m ≡ some bytes
    unfolding telegram_channel
    still_there {s = s} {t = t} later m bytes h =
        bytes_later (K.message s m) (K.message t m) bytes (later m) h

    pub commit_manifest-KeepsMessages :
        (J : ManifestJson) (L : TreeJson) (serde : SuperblockJson) (now : ℕ)
        → KeepsMessages D J
            (telegram T D)
            telegram_channel
            (some (commit_manifest T D J L serde now))
    unfolding telegram_channel
    commit_manifest-KeepsMessages J L serde now m size sector object s id bytes h =
        bytes_later (K.message s id) _ bytes
          (commit_manifest-Safe T K D J L serde now m size sector object s id) h
