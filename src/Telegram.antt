-- ===== src/Telegram.antt =====
-- The Telegram client: crates/tgdrive-telegram/src/client.rs. grammers, which it calls, is a parameter:
-- `Chat` has its calls for the one peer of a `TelegramStorage`, on a state of its own. The semaphores
-- are left out: a call holds one permit at most.
pub mod Storage
pub mod Manifests
pub mod Chats
pub mod Distinct
pub mod Reads
pub mod Sends
pub mod Safe
pub mod Leaves
pub mod Posts
pub mod Commits
pub mod Recover
pub mod Scan
pub mod Backend
pub mod Disk
use telegram_block_device.Prelude.{ℕ, ◌≡◌, ok, Option, List, Exec, Result}
use telegram_block_device.Prelude.Bytes.{Text}
use telegram_block_device.Errors.{Error}
use telegram_block_device.Format.Tree.{ManifestTreeLeaf, ManifestTreeRoot}

-- A message, with what is needed to download its file, if it has one.
pub record Message (Media : Type 0) : Type 0 where
  pub id : ℕ
  pub text : Text
  pub media : Option Media

pub record Chat : Type 1 where
  pub State : Type 0
  pub Media : Type 0
  pub Upload : Type 0
  -- `peer.id.bot_api_dialog_id_unchecked()`
  pub dialog_id : ℕ
  pub upload_stream : List ℕ → Text → Exec Error State Upload
  -- The number of the new message.
  pub send_message : Text → Option Upload → Exec Error State ℕ
  pub pin_message : ℕ → Exec Error State (Unit {0})
  pub get_pinned_message : Exec Error State (Option (Message Media))
  -- The latest messages, so many at most.
  pub iter_messages : ℕ → Exec Error State (List (Message Media))
  pub get_messages_by_id : List ℕ → Exec Error State (List (Option (Message Media)))
  pub delete_messages : List ℕ → Exec Error State ℕ
  -- The chunks of a file.
  pub iter_download : Media → Exec Error State (List (List ℕ))

-- serde_json on the parts of a manifest tree.
pub record TreeJson : Type 0 where
  pub encode_leaf : ManifestTreeLeaf → List ℕ
  pub decode_leaf : List ℕ → Result Error ManifestTreeLeaf
  pub encode_root : ManifestTreeRoot → List ℕ
  pub decode_root : List ℕ → Result Error ManifestTreeRoot

-- What the program relies on where it reads a tree back.
pub record ReadsBack (J : TreeJson) : Type 0 where
  pub decode_leaf-encode_leaf :
      (leaf : ManifestTreeLeaf) → J.decode_leaf (J.encode_leaf leaf) ≡ ok leaf
  pub decode_root-encode_root :
      (root : ManifestTreeRoot) → J.decode_root (J.encode_root root) ≡ ok root
