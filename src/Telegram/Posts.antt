-- ===== src/Telegram/Posts.antt =====
-- The superblock that `upsert_pinned_superblock` of crates/tgdrive-telegram/src/client.rs posts.
use telegram_block_device.Prelude.{
  stepped, ℕ, ◌≡◌, sym, ◌∙◌, ap, subst, inl, inr, Bool-cases, Option, none, some, ok, ◌>>=◌, pure,
}
use telegram_block_device.Prelude.Bytes.{Text}
use telegram_block_device.Format.Digest.{Digest}
use telegram_block_device.Format.Manifest.{ManifestJson}
use telegram_block_device.Format.Superblock.{Superblock, SuperblockJson, decode_text}
use telegram_block_device.Telegram.{Chat, Message, TreeJson}
use telegram_block_device.Telegram.Chats.{Keeps}
use telegram_block_device.Telegram.Storage.{
  pinned_message, upsert_pinned_superblock, upsert_over, pin_new, send_superblock_backup,
  is_superblock,
}

module _ (T : Chat) (K : Keeps T) (D : Digest) (J : ManifestJson) (L : TreeJson)
    (serde : SuperblockJson) where
  -- A message of the chat has the text.
  abbrev pub Posted : T.State → Text → Type 0
  Posted s text = (id : ℕ) × (K.message s id ≡ some (record { id = id; text = text; media = none }))

  -- A message of the chat has a text that decodes to the superblock.
  abbrev pub HasSuperblock : T.State → Superblock → Type 0
  HasSuperblock s b = (text : Text) × Posted s text × (decode_text serde text ≡ ok b)

  backup_posts :
      (text : Text) (id : ℕ) (s : T.State) (n : ℕ)
      → ((send_superblock_backup T text >>= λ backup. pure id) s).0 ≡ ok n
      → Posted ((send_superblock_backup T text >>= λ backup. pure id) s).1 text
  backup_posts text id s n h =
      let (backup, sent, e) = stepped (send_superblock_backup T text) (λ backup. pure id) s n h in
      subst (λ o. Posted o.1 text) (sym e) (backup, K.sends text s backup sent)

  pin_new_posts :
      (text : Text) (s : T.State) (n : ℕ)
      → (pin_new T text s).0 ≡ ok n
      → Posted (pin_new T text s).1 text
  pin_new_posts text s n h =
      let (id, sent, e₁) = stepped (T.send_message text none) _ s n h in
      let t : T.State = (T.send_message text none s).1 in
      let (done, pinned, e₂) = stepped (T.pin_message id) _ t n (sym (ap (λ o. o.0) e₁) ∙ h) in
      subst (λ o. Posted o.1 text) (sym (e₁ ∙ e₂))
        (backup_posts text id (T.pin_message id t).1 n (sym (ap (λ o. o.0) (e₁ ∙ e₂)) ∙ h))

  upsert_over_posts :
      (text : Text) (pinned : Option (Message T.Media)) (s : T.State) (n : ℕ)
      → (upsert_over T text pinned s).0 ≡ ok n
      → Posted (upsert_over T text pinned s).1 text
  upsert_over_posts text none s n = pin_new_posts text s n
  upsert_over_posts text (some m) s n = elim (Bool-cases (is_superblock m.text)) [
    | inl pinned ↦ rw pinned (backup_posts text m.id s n)
    | inr other ↦ rw other (pin_new_posts text s n)
  ]

  pub upsert_posts :
      (text : Text) (s : T.State) (n : ℕ)
      → (upsert_pinned_superblock T text s).0 ≡ ok n
      → Posted (upsert_pinned_superblock T text s).1 text
  unfolding upsert_pinned_superblock
  upsert_posts text s n h =
      let (pinned, got, e) = stepped (pinned_message T) (upsert_over T text) s n h in
      subst (λ o. Posted o.1 text) (sym e)
        (upsert_over_posts text pinned (pinned_message T s).1 n (sym (ap (λ o. o.0) e) ∙ h))
