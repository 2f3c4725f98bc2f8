-- ===== src/Telegram/Reads.antt =====
-- The calls of `TelegramStorage` that read: they change no message, and what they return.
use telegram_block_device.Prelude.{
  ℕ, zero, suc, ◌≤◌, ◌≡◌, refl, sym, ◌∙◌, ap, ap₂, inl, inr, Option, none, some, List, [], ◌∷◌,
  ◌++◌, map, concat, length, length-take, drop, Result, ok, err, Result-cases, and_then, ok_or,
  subst, ◌==◌, if◌then◌else◌, ensure, map_err, ◌>>=◌, continue, arith, pure, lift,
}
use telegram_block_device.Prelude.Bytes.{text_eq}
use telegram_block_device.Errors.{
  Error, no_media, message_not_found, format, payload_checksum_mismatch,
}
use telegram_block_device.Format.Digest.{Digest, sha256_hex}
use telegram_block_device.Format.Envelope.{ObjectEnvelope, decode}
use telegram_block_device.Format.Manifest.{RemoteObjectRef}
use telegram_block_device.Format.Tree.{chunks}
use telegram_block_device.Format.Tree.RoundTrip.{concat-chunks}
use telegram_block_device.Telegram.{Chat, Message}
use telegram_block_device.Telegram.Chats.{Keeps, Answers, once, without}
use telegram_block_device.Telegram.Distinct.{Distinct, Distinct-front, Distinct-back, once-Distinct}
use telegram_block_device.Telegram.Storage.{
  Call, first, hundreds, download_message_media, collect, get_chunks, get_messages_by_id,
  pinned_message, pinned_superblock_text, fetch_object,
}

once_eq :
    {A : Type 0} (f g : ℕ → Option A) (ids : List ℕ)
    → ((j : ℕ) → f j ≡ g j)
    → once f ids ≡ once g ids
once_eq f g [] h = refl
once_eq f g (id ∷ ids) h =
    ap₂ (λ x xs. x ∷ xs) (h id)
      (once_eq (without id f) (without id g) ids (λ j. ap (λ x. if j == id then none else x) (h j)))

pub map-append :
    {A B : Type 0} (f : A → B) (xs ys : List A) → map f (xs ++ ys) ≡ map f xs ++ map f ys
map-append f [] ys = refl
map-append f (x ∷ xs) ys = ap (λ t. f x ∷ t) (map-append f xs ys)

abbrev AllShort : List (List ℕ) → Type 0
AllShort [] = Unit {0}
AllShort (ids ∷ chunks) = (length ids ≤ 100) × AllShort chunks

chunks-AllShort : (fuel : ℕ) (ids : List ℕ) → AllShort (chunks fuel 100 ids)
unfolding chunks
chunks-AllShort zero ids = tt
chunks-AllShort (suc fuel) [] = tt
chunks-AllShort (suc fuel) (id ∷ ids) =
    (omega (arith, length-take 100 (id ∷ ids)), chunks-AllShort fuel (drop 100 (id ∷ ids)))

module _ (T : Chat) (K : Keeps T) where
  -- A call that changes no message.
  abbrev pub Exact : {A : Type 0} → Call T A → Type 0
  Exact m = (s : T.State) (j : ℕ) → K.message (m s).1 j ≡ K.message s j

  both :
      {A A' : Type 0} (s : T.State) (r : Result Error A × T.State) (f : A → Call T A')
      → ((j : ℕ) → K.message r.1 j ≡ K.message s j)
      → ((a : A) → Exact (f a))
      → (j : ℕ) → K.message (continue r.0 f r.1).1 j ≡ K.message s j
  both s (ok a, t) f h g j = g a t j ∙ h j
  both s (err e, t) f h g j = h j

  chain :
      {A A' : Type 0} (m : Call T A) (f : A → Call T A')
      → Exact m
      → ((a : A) → Exact (f a))
      → Exact (m >>= f)
  chain m f h g s j = both s (m s) f (h s) g j

  lift-Exact : {A : Type 0} (r : Result Error A) → Exact (lift r)
  lift-Exact r s j = refl

  download-Exact : (m : Message T.Media) → Exact (download_message_media T m)
  download-Exact m =
      chain (lift (ok_or m.media (no_media m.id))) _ (λ s j. refl)
        (λ media. chain (T.iter_download media) _ (K.download_keeps media) (λ pieces s j. refl))

  collect-Exact : (ms : List (Option (Message T.Media))) → Exact (collect T ms)
  unfolding collect
  collect-Exact [] s j = refl
  collect-Exact (none ∷ ms) s j = chain (collect T ms) _ (collect-Exact ms) (λ rest t k. refl) s j
  collect-Exact (some m ∷ ms) s j =
      chain (download_message_media T m) _ (download-Exact m)
        (λ bytes. chain (collect T ms) _ (collect-Exact ms) (λ rest t k. refl)) s j

  get_chunks-Exact : (cs : List (List ℕ)) → Exact (get_chunks T cs)
  unfolding get_chunks
  get_chunks-Exact [] s j = refl
  get_chunks-Exact (ids ∷ cs) s j =
      chain (T.get_messages_by_id ids) _ (K.get_keeps ids)
        (λ ms.
          chain (collect T ms) _ (collect-Exact ms)
            (λ found. chain (get_chunks T cs) _ (get_chunks-Exact cs) (λ rest t k. refl)))
        s j

  pub get_messages_by_id-Exact : (ids : List ℕ) → Exact (get_messages_by_id T ids)
  unfolding get_messages_by_id
  get_messages_by_id-Exact ids = get_chunks-Exact (hundreds ids)

  pub fetch_object-Exact : (D : Digest) (r : RemoteObjectRef) → Exact (fetch_object T D r)
  unfolding fetch_object
  fetch_object-Exact D r =
      chain (get_messages_by_id T (r.message_id ∷ [])) _
        (get_messages_by_id-Exact (r.message_id ∷ []))
        (λ ms.
          chain {A = List ℕ} (lift (ok_or (first ms) (message_not_found r.message_id))) _
            (λ s j. refl)
            (λ payload.
              chain {A = ObjectEnvelope}
                (lift (map_err format (decode D payload r.object_id r.generation))) _ (λ s j. refl)
                (λ envelope.
                  chain {A = Unit {0}}
                    (lift
                      (ensure (text_eq (sha256_hex D payload) r.sha256) payload_checksum_mismatch))
                    _ (λ s j. refl) (λ done s j. refl))))

  pub pinned_superblock_text-Exact : Exact (pinned_superblock_text T)
  pinned_superblock_text-Exact =
      chain (pinned_message T) _ (λ s j. K.pinned_keeps s j) (λ m s j. refl)

  -- Reading at once, in one list.
  abbrev pub bytes_of : Message T.Media → Result Error (List ℕ)
  bytes_of m = and_then (ok_or m.media (no_media m.id)) (λ media. ok (K.file media))

  abbrev pub read_all : List (Option (Message T.Media)) → Result Error (List (Option (List ℕ)))
  read_all [] = ok []
  read_all (none ∷ ms) = and_then (read_all ms) (λ rest. ok (none ∷ rest))
  read_all (some m ∷ ms) =
      and_then (bytes_of m) (λ bytes. and_then (read_all ms) (λ rest. ok (some bytes ∷ rest)))

  abbrev join :
      Result Error (List (Option (List ℕ)))
      → Result Error (List (Option (List ℕ)))
      → Result Error (List (Option (List ℕ)))
  join xs ys = and_then xs (λ a. and_then ys (λ b. ok (a ++ b)))

  join_first :
      (m : Option (List ℕ)) (xs ys : Result Error (List (Option (List ℕ))))
      → join (and_then xs (λ rest. ok (m ∷ rest))) ys
        ≡ and_then (join xs ys) (λ rest. ok (m ∷ rest))
  join_first m (ok xs) (ok ys) = refl
  join_first m (ok xs) (err e) = refl
  join_first m (err e) ys = refl

  join_nil : (ys : Result Error (List (Option (List ℕ)))) → join (ok []) ys ≡ ys
  join_nil (ok ys) = refl
  join_nil (err e) = refl

  read_all-append :
      (ms ns : List (Option (Message T.Media)))
      → read_all (ms ++ ns) ≡ join (read_all ms) (read_all ns)
  read_all-append [] ns = sym (join_nil (read_all ns))
  read_all-append (none ∷ ms) ns =
      ap (λ r. and_then r (λ rest. ok (none ∷ rest))) (read_all-append ms ns)
      ∙ sym (join_first none (read_all ms) (read_all ns))
  read_all-append (some m ∷ ms) ns = elim (Result-cases (bytes_of m)) [
    | inr (e, bad) ↦ rw bad refl
    | inl (bytes, good) ↦ rw good (
        ap (λ r. and_then r (λ rest. ok (some bytes ∷ rest))) (read_all-append ms ns)
        ∙ sym (join_first (some bytes) (read_all ms) (read_all ns)))
  ]

  module _ (answers : Answers T K) where
    download_lem :
        (m : Message T.Media) (s : T.State) → (download_message_media T m s).0 ≡ bytes_of m
    download_lem m s = with_media m.media
      where
        with_media :
            (media : Option T.Media)
            → (continue
                (ok_or media (no_media m.id))
                (λ media. T.iter_download media >>= λ pieces. pure (concat pieces))
                s).0
              ≡ and_then (ok_or media (no_media m.id)) (λ media. ok (K.file media))
        with_media none = refl
        with_media (some media) =
            let (pieces, good, whole) = answers.downloads media s in rw good (ap ok whole)

    collect_lem :
        (ms : List (Option (Message T.Media))) (s : T.State) → (collect T ms s).0 ≡ read_all ms
    unfolding collect
    collect_lem [] s = refl
    collect_lem (none ∷ ms) s = elim (Result-cases (read_all ms)) [
      | inr (e, bad) ↦ rw (collect_lem ms s, bad) refl
      | inl (rest, good) ↦ rw (collect_lem ms s, good) refl
    ]
    collect_lem (some m ∷ ms) s =
        let t : T.State = (download_message_media T m s).1 in
        elim (Result-cases (bytes_of m)) [
          | inr (e, bad) ↦ rw (download_lem m s, bad) refl
          | inl (bytes, good) ↦
              rw (download_lem m s, good)
                (elim (Result-cases (read_all ms)) [
                  | inr (e, bad) ↦ rw (collect_lem ms t, bad) refl
                  | inl (rest, fine) ↦ rw (collect_lem ms t, fine) refl
                ])
        ]

    -- What the chat has for numbers that are asked for in these chunks.
    abbrev pub answered : T.State → List (List ℕ) → List (Option (Message T.Media))
    answered s [] = []
    answered s (ids ∷ cs) = once (K.message s) ids ++ answered s cs

    answered_eq :
        (s t : T.State) (cs : List (List ℕ))
        → ((j : ℕ) → K.message s j ≡ K.message t j)
        → answered s cs ≡ answered t cs
    answered_eq s t cs h = answered_all cs
      where
        answered_all : (cs : List (List ℕ)) → answered s cs ≡ answered t cs
        answered_all [] = refl
        answered_all (ids ∷ cs) =
            ap₂ (λ xs ys. xs ++ ys) (once_eq (K.message s) (K.message t) ids h) (answered_all cs)

    get_chunks_lem :
        (cs : List (List ℕ)) (s : T.State)
        → AllShort cs
        → (get_chunks T cs s).0 ≡ read_all (answered s cs)
    unfolding get_chunks
    get_chunks_lem [] s short = refl
    get_chunks_lem (ids ∷ cs) s (le, short) =
        let t : T.State = (T.get_messages_by_id ids s).1 in
        let ms : List (Option (Message T.Media)) = once (K.message s) ids in
        let u : T.State = (collect T ms t).1 in
        let ends : (get_chunks T cs u).0 ≡ read_all (answered s cs) =
          get_chunks_lem cs u short
          ∙ ap read_all (answered_eq u s cs (λ j. collect-Exact ms t j ∙ K.get_keeps ids s j)) in
        rw (answers.gets ids s le, read_all-append ms (answered s cs))
          (elim (Result-cases (read_all ms)) [
            | inr (e, bad) ↦ rw (collect_lem ms t, bad) refl
            | inl (found, good) ↦
                rw (collect_lem ms t, good)
                  (elim (Result-cases (read_all (answered s cs))) [
                    | inr (e, bad) ↦ rw (ends, bad) refl
                    | inl (rest, fine) ↦ rw (ends, fine) refl
                  ])
          ])

    answered-Distinct :
        (s : T.State) (cs : List (List ℕ))
        → Distinct (concat cs)
        → answered s cs ≡ map (K.message s) (concat cs)
    answered-Distinct s [] d = refl
    answered-Distinct s (ids ∷ cs) d =
        ap₂ (λ xs ys. xs ++ ys) (once-Distinct (K.message s) ids (Distinct-front ids (concat cs) d))
          (answered-Distinct s cs (Distinct-back ids (concat cs) d))
        ∙ sym (map-append (K.message s) ids (concat cs))

    -- With repeats too: what is found is read of the answers to the chunks.
    pub get_messages_by_id-answered :
        (ids : List ℕ) (s : T.State)
        → (get_messages_by_id T ids s).0 ≡ read_all (answered s (hundreds ids))
    unfolding get_messages_by_id
    get_messages_by_id-answered ids s =
        get_chunks_lem (hundreds ids) s (chunks-AllShort (length ids) ids)

    -- On a chat that answers, and for numbers without repeats, messages that are asked for in chunks of a
    -- hundred are those of one reading of all the numbers, in order, with the same error where a message
    -- has no file; and no message changes.
    pub get_messages_by_id_lem :
        (ids : List ℕ) (s : T.State)
        → Distinct ids
        → ((get_messages_by_id T ids s).0 ≡ read_all (map (K.message s) ids))
          × ((j : ℕ) → K.message (get_messages_by_id T ids s).1 j ≡ K.message s j)
    get_messages_by_id_lem ids s d =
        let whole : concat (hundreds ids) ≡ ids =
          concat-chunks (length ids) 100 ids (omega arith) (omega arith) in
        (
          get_messages_by_id-answered ids s
              ∙ ap read_all (
                  answered-Distinct s (hundreds ids) (subst Distinct (sym whole) d)
                  ∙ ap (map (K.message s)) whole),
          get_messages_by_id-Exact ids s,
        )
