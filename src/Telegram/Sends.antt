-- ===== src/Telegram/Sends.antt =====
-- Sending to the chat: no message is lost, and what was sent can be fetched.
use telegram_block_device.Prelude.{
  stepped, ℕ, ◌≡◌, refl, sym, ◌∙◌, ap, subst, none, some, List, [], ◌∷◌, Result, ok, err, map_err,
  ◌>>=◌, continue, lift, true, ok_injective,
}
use telegram_block_device.Prelude.Bytes.{Text, text_eq, text_eq_refl}
use telegram_block_device.Errors.{Error, format}
use telegram_block_device.Format.Digest.{Digest, sha256_hex}
use telegram_block_device.Format.Envelope.{ObjectEnvelope, FormatError, decode}
use telegram_block_device.Format.Manifest.{RemoteObjectRef}
use telegram_block_device.Telegram.{Chat, Message}
use telegram_block_device.Telegram.Chats.{Keeps, Answers}
use telegram_block_device.Telegram.Reads.{get_messages_by_id_lem}
use telegram_block_device.Telegram.Storage.{Call, file_name, caption_of, send_object, fetch_object}

pub accepted : {A : Type 0} (r : Result FormatError A) (a : A) → map_err format r ≡ ok a → r ≡ ok a
accepted (ok b) a h = cc
accepted (err e) a h = cc

module _ (T : Chat) (K : Keeps T) where
  abbrev pub Later : T.State → T.State → Type 0
  Later s t = (j : ℕ) (x : Message T.Media) → K.message s j ≡ some x → K.message t j ≡ some x

  -- A call that loses no message.
  abbrev pub Safe : {A : Type 0} → Call T A → Type 0
  Safe m = (s : T.State) → Later s (m s).1

  both :
      {A A' : Type 0} (s : T.State) (r : Result Error A × T.State) (f : A → Call T A')
      → Later s r.1
      → ((a : A) → Safe (f a))
      → Later s (continue r.0 f r.1).1
  both s (ok a, t) f h g j x found = g a t j x (h j x found)
  both s (err e, t) f h g j x found = h j x found

  pub chain :
      {A A' : Type 0} (m : Call T A) (f : A → Call T A')
      → Safe m
      → ((a : A) → Safe (f a))
      → Safe (m >>= f)
  chain m f h g s = both s (m s) f (h s) g

  pub exact :
      {A : Type 0} (m : Call T A)
      → ((s : T.State) (j : ℕ) → K.message (m s).1 j ≡ K.message s j)
      → Safe m
  exact m h s j x found = h s j ∙ found

  module _ (D : Digest) where
    pub send_object-Safe :
        (object_id generation : ℕ) (payload : List ℕ) (sha256 : Text)
        → Safe (send_object T D object_id generation payload sha256)
    unfolding send_object
    send_object-Safe object_id generation payload sha256 =
        chain {A = ObjectEnvelope} (lift (map_err format (decode D payload object_id generation))) _
          (λ s j x h. h)
          (λ envelope.
            chain (T.upload_stream payload (file_name object_id generation)) _
              (exact (T.upload_stream payload (file_name object_id generation))
                (K.upload_keeps payload (file_name object_id generation)))
              (λ u.
                chain (T.send_message (caption_of object_id generation sha256) (some u)) _
                  (K.send_keeps (caption_of object_id generation sha256) (some u))
                  (λ id s j x h. h)))

    -- A payload that was sent stands in the chat under its reference, which names it.
    pub record Stands (s : T.State) (object_id generation : ℕ) (payload : List ℕ) (sha256 : Text)
        (r : RemoteObjectRef) : Type 0 where
      pub named : r ≡ record {
        chat_id = T.dialog_id;
        message_id = r.message_id;
        object_id = object_id;
        generation = generation;
        sha256 = sha256;
      }
      pub opened : ObjectEnvelope
      pub decodes : decode D payload object_id generation ≡ ok opened
      pub media : T.Media
      pub text : Text
      pub found :
          K.message s r.message_id
          ≡ some (record { id = r.message_id; text = text; media = some media })
      pub same_file : K.file media ≡ payload

    pub send_object-Stands :
        (object_id generation : ℕ) (payload : List ℕ) (sha256 : Text) (s : T.State)
        (r : RemoteObjectRef)
        → (send_object T D object_id generation payload sha256 s).0 ≡ ok r
        → Stands
            (send_object T D object_id generation payload sha256 s).1
            object_id
            generation
            payload
            sha256
            r
    unfolding send_object
    send_object-Stands object_id generation payload sha256 s r h =
        let caption : Text = caption_of object_id generation sha256 in
        let (envelope, decoded, e₁) =
          stepped (lift (map_err format (decode D payload object_id generation))) _ s r h in
        let upload : Call T T.Upload = T.upload_stream payload (file_name object_id generation) in
        let t : T.State = (upload s).1 in
        let (u, uploaded, e₂) = stepped upload _ s r (sym (ap (λ o. o.0) e₁) ∙ h) in
        let (id, sent, e₃) =
          stepped (T.send_message caption (some u)) _ t r (sym (ap (λ o. o.0) (e₁ ∙ e₂)) ∙ h) in
        let (media, found, same) = K.sends_file caption u t id sent in
        let ref : RemoteObjectRef = record {
          chat_id = T.dialog_id;
          message_id = id;
          object_id = object_id;
          generation = generation;
          sha256 = sha256;
        } in
        let whole : send_object T D object_id generation payload sha256 s
            ≡ (ok ref, (T.send_message caption (some u) t).1) =
          e₁ ∙ e₂ ∙ e₃ in
        let named : ref ≡ r = ok_injective (sym (ap (λ o. o.0) whole) ∙ h) in
        subst (λ o. Stands o.1 object_id generation payload sha256 r) (sym whole)
          (subst (Stands (T.send_message caption (some u) t).1 object_id generation payload sha256)
            named
            (record {
              named = refl;
              opened = envelope;
              decodes = accepted (decode D payload object_id generation) envelope decoded;
              media = media;
              text = caption;
              found = found;
              same_file = same ∙ K.uploads payload (file_name object_id generation) s u uploaded;
            }))

    -- A payload that was sent has a number that no message had.
    pub send_object-fresh :
        (object_id generation : ℕ) (payload : List ℕ) (sha256 : Text) (s : T.State)
        (r : RemoteObjectRef)
        → (send_object T D object_id generation payload sha256 s).0 ≡ ok r
        → K.message s r.message_id ≡ none
    unfolding send_object
    send_object-fresh object_id generation payload sha256 s r h =
        let caption : Text = caption_of object_id generation sha256 in
        let name : Text = file_name object_id generation in
        let (envelope, decoded, e₁) =
          stepped (lift (map_err format (decode D payload object_id generation))) _ s r h in
        let upload : Call T T.Upload = T.upload_stream payload name in
        let t : T.State = (upload s).1 in
        let (u, uploaded, e₂) = stepped upload _ s r (sym (ap (λ o. o.0) e₁) ∙ h) in
        let (id, sent, e₃) =
          stepped (T.send_message caption (some u)) _ t r (sym (ap (λ o. o.0) (e₁ ∙ e₂)) ∙ h) in
        subst (λ q. K.message s q.message_id ≡ none)
          (ok_injective (sym (ap (λ o. o.0) (e₁ ∙ e₂ ∙ e₃)) ∙ h))
          (sym (K.upload_keeps payload name s id) ∙ K.sends_fresh caption (some u) t id sent)

    pub Stands-Later :
        {s t : T.State} {object_id generation : ℕ} {payload : List ℕ} {sha256 : Text}
        {r : RemoteObjectRef}
        → Stands s object_id generation payload sha256 r
        → Later s t
        → Stands t object_id generation payload sha256 r
    Stands-Later {r = r} h later = record {
      named = h.named;
      opened = h.opened;
      decodes = h.decodes;
      media = h.media;
      text = h.text;
      found = later r.message_id _ h.found;
      same_file = h.same_file;
    }

    -- What stands under its own checksum is fetched.
    pub fetch_object-Stands :
        (object_id generation : ℕ) (payload : List ℕ) (s : T.State) (r : RemoteObjectRef)
        → Answers T K
        → Stands s object_id generation payload (sha256_hex D payload) r
        → (fetch_object T D r s).0 ≡ ok payload
    unfolding fetch_object
    fetch_object-Stands object_id generation payload s r answers h =
        let read = (get_messages_by_id_lem T K answers (r.message_id ∷ []) s (tt, tt)).0 in
        let here : decode D payload r.object_id r.generation ≡ ok h.opened =
          ap (λ q. decode D payload q.object_id q.generation) h.named ∙ h.decodes in
        let sealed : text_eq (sha256_hex D payload) r.sha256 ≡ true =
          ap (λ q. text_eq (sha256_hex D payload) q.sha256) h.named
          ∙ text_eq_refl (sha256_hex D payload) in
        rw (read, h.found, h.same_file, here, sealed) refl
