-- ===== src/Tests/Group.antt =====
-- A chat that keeps its messages in order: the assumptions on a chat hold of it.
use telegram_block_device.Prelude.{
  ℕ, zero, suc, ◌≡◌, refl, sym, ◌∙◌, ap, Option, none, some, List, [], ◌∷◌, ◌++◌, take, length,
  Result, ok, err, Exec, ok_injective, append-nil,
}
use telegram_block_device.Prelude.Bytes.{Text}
use telegram_block_device.Errors.{Error, message_ids_empty}
use telegram_block_device.Telegram.{Chat, Message}
use telegram_block_device.Telegram.Chats.{Keeps, Answers, once}

abbrev pub Note : Type 0
Note = Message (List ℕ)

pub record Group : Type 0 where
  pub messages : List Note
  pub pinned : Option Note

abbrev pub nth : List Note → ℕ → Option Note
nth [] i = none
nth (x ∷ xs) zero = some x
nth (x ∷ xs) (suc i) = nth xs i

abbrev backwards : List Note → List Note
backwards [] = []
backwards (x ∷ xs) = backwards xs ++ x ∷ []

abbrev pub note : Text → Option (List ℕ) → Group → Note
note text file s = record { id = length s.messages; text = text; media = file }

abbrev pub send : Text → Option (List ℕ) → Exec Error Group ℕ
send text file s =
    (ok (length s.messages), record s { messages = s.messages ++ note text file s ∷ [] })

abbrev pinned_note : Option Note → Result Error (Option Note)
pinned_note none = err message_ids_empty
pinned_note (some x) = ok (some x)

abbrev pub group_chat : Chat
group_chat = record {
  State = Group;
  Media = List ℕ;
  Upload = List ℕ;
  dialog_id = 100;
  upload_stream = λ bytes name s. (ok bytes, s);
  send_message = send;
  pin_message = λ id s. (ok tt, record s { pinned = nth s.messages id });
  get_pinned_message = λ s. (pinned_note s.pinned, s);
  iter_messages = λ n s. (ok (take n (backwards s.messages)), s);
  get_messages_by_id = λ ids s. (ok (once (nth s.messages) ids), s);
  delete_messages = λ ids s. (ok 0, s);
  iter_download = λ bytes s. (ok (bytes ∷ []), s);
}

pub nth-append :
    (xs : List Note) (y : Note) (m : ℕ) (x : Note)
    → nth xs m ≡ some x
    → nth (xs ++ y ∷ []) m ≡ some x
nth-append [] y m x h = cc
nth-append (z ∷ zs) y zero x h = h
nth-append (z ∷ zs) y (suc m) x h = nth-append zs y m x h

nth-append_self : (xs : List Note) (y : Note) → nth (xs ++ y ∷ []) (length xs) ≡ some y
nth-append_self [] y = refl
nth-append_self (z ∷ zs) y = nth-append_self zs y

pub nth-length : (xs : List Note) → nth xs (length xs) ≡ none
nth-length [] = refl
nth-length (z ∷ zs) = nth-length zs

pub sent :
    (text : Text) (file : Option (List ℕ)) (s : Group) (id : ℕ)
    → (send text file s).0 ≡ ok id
    → nth (s.messages ++ note text file s ∷ []) id
      ≡ some (record { id = id; text = text; media = file })
sent text file s id h =
    ap (nth (s.messages ++ note text file s ∷ [])) (sym (ok_injective h))
    ∙ nth-append_self s.messages (note text file s)
    ∙ ap (λ n. some (record { id = n; text = text; media = file })) (ok_injective h)

abbrev pub group-Keeps : Keeps group_chat
group-Keeps = record {
  message = λ s m. nth s.messages m;
  file = λ bytes. bytes;
  content = λ bytes. bytes;
  upload_keeps = λ bytes name s m. refl;
  uploads = λ bytes name s u h. sym (ok_injective h);
  send_keeps = λ text u s m x h. nth-append s.messages (note text u s) m x h;
  sends_fresh = λ text u s id h. ap (nth s.messages) (sym (ok_injective h)) ∙ nth-length s.messages;
  sends = λ text s id h. sent text none s id h;
  sends_file = λ text u s id h. (u, sent text (some u) s id h, refl);
  pin_keeps = λ id s m. refl;
  pinned_keeps = λ s m. refl;
  get_keeps = λ ids s m. refl;
  download_keeps = λ media s m. refl;
}

pub group-Answers : Answers group_chat group-Keeps
group-Answers = record {
  gets = λ ids s le. refl;
  downloads = λ media s. (media ∷ [], refl, append-nil media);
}
