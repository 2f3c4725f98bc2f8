-- ===== src/Tests/Log.antt =====
-- A channel that numbers its messages in order and loses none: the assumptions on a backend hold of it.
use telegram_block_device.Prelude.{
  ℕ, zero, suc, ◌≡◌, refl, sym, ◌∙◌, Option, none, some, List, [], ◌∷◌, ◌++◌, map, ok, ok_or, Exec,
  length, ok_injective, ap, subst,
}
use telegram_block_device.Prelude.Bytes.{Text}
use telegram_block_device.Format.Digest.{Digest}
use telegram_block_device.Format.Manifest.{RemoteObjectRef}
use telegram_block_device.Errors.{Error, message_not_found}
use telegram_block_device.Backend.{RemoteBackend, Channel, IsReadable, AnswersFrom}

abbrev pub nth : List (List ℕ) → ℕ → Option (List ℕ)
nth [] i = none
nth (x ∷ xs) zero = some x
nth (x ∷ xs) (suc i) = nth xs i

abbrev send : ℕ → ℕ → List ℕ → Text → Exec Error (List (List ℕ)) RemoteObjectRef
send object_id generation payload sha s = (
  ok (record {
    chat_id = 100;
    message_id = length s;
    object_id = object_id;
    generation = generation;
    sha256 = sha;
  }),
  s ++ payload ∷ [],
)

abbrev fetch : RemoteObjectRef → Exec Error (List (List ℕ)) (List ℕ)
fetch r s = (ok_or (nth s r.message_id) (message_not_found r.message_id), s)

abbrev get : List ℕ → Exec Error (List (List ℕ)) (List (Option (List ℕ)))
get ids s = (ok (map (nth s) ids), s)

abbrev pub log_backend : RemoteBackend
log_backend = record {
  State = List (List ℕ);
  send_object = send;
  fetch_object = fetch;
  get_messages_by_id = get;
}

pub nth-append :
    (s : List (List ℕ)) (payload : List ℕ) (m : ℕ) (bytes : List ℕ)
    → nth s m ≡ some bytes
    → nth (s ++ payload ∷ []) m ≡ some bytes
nth-append [] payload m bytes h = cc
nth-append (x ∷ xs) payload zero bytes h = h
nth-append (x ∷ xs) payload (suc m) bytes h = nth-append xs payload m bytes h

pub nth-append_self :
    (s : List (List ℕ)) (payload : List ℕ) → nth (s ++ payload ∷ []) (length s) ≡ some payload
nth-append_self [] payload = refl
nth-append_self (x ∷ xs) payload = nth-append_self xs payload

pub sent :
    (id generation : ℕ) (payload : List ℕ) (sha : Text) (s : List (List ℕ)) (r : RemoteObjectRef)
    → (send id generation payload sha s).0 ≡ ok r
    → nth (s ++ payload ∷ []) r.message_id ≡ some payload
sent id generation payload sha s r h =
    ap (λ r. nth (s ++ payload ∷ []) r.message_id) (sym (ok_injective h))
    ∙ nth-append_self s payload

pub all_there : (s : List (List ℕ)) (ids : List ℕ) → AnswersFrom (nth s) ids (map (nth s) ids)
all_there s [] = tt
all_there s (id ∷ ids) = with_answer (nth s id) refl (all_there s ids)
  where
    with_answer :
        (o : Option (List ℕ))
        → nth s id ≡ o
        → AnswersFrom (nth s) ids (map (nth s) ids)
        → AnswersFrom (nth s) (id ∷ ids) (o ∷ map (nth s) ids)
    with_answer none e rest = rest
    with_answer (some bytes) e rest = (e, rest)

abbrev pub log_channel : Channel log_backend
log_channel = record {
  message = nth;
  send_keeps = λ id generation payload sha s m bytes h. nth-append s payload m bytes h;
  fetch_keeps = λ r s m bytes h. h;
  get_keeps = λ ids s m bytes h. h;
  send_stores = sent;
  send_names = λ id generation payload sha s r h. (
    ap (λ q. q.object_id) (sym (ok_injective h)),
    ap (λ q. q.generation) (sym (ok_injective h)),
    ap (λ q. q.sha256) (sym (ok_injective h)),
  );
  get_reads = λ ids s found h. subst (AnswersFrom (nth s) ids) (ok_injective h) (all_there s ids);
}

fetched :
    (r : RemoteObjectRef) (s : List (List ℕ)) (bytes : List ℕ)
    → nth s r.message_id ≡ some bytes
    → (fetch r s).0 ≡ ok bytes
fetched r s bytes h = rw h

pub log-IsReadable : (D : Digest) → IsReadable D log_backend log_channel
log-IsReadable D = record {
  fetch_reads = λ r s bytes e here decodes checksum. fetched r s bytes here;
}
