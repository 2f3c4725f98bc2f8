-- ===== src/Backend/Memory.antt =====
-- `MemoryBackend` of crates/tgdrive-core/src/backend.rs.
pub mod Keeps
use telegram_block_device.Prelude.{
  ℕ, ◌+◌, ◌%◌, ◌^◌, Option, none, some, List, map, ok, Exec, ok_or, ◌==◌, if◌then◌else◌,
}
use telegram_block_device.Prelude.Bytes.{Text}
use telegram_block_device.Format.Manifest.{RemoteObjectRef}
use telegram_block_device.Backend.Traits.{RemoteBackend}
use telegram_block_device.Errors.{Error, message_not_found}

-- An `i32` counter as its bit pattern, and the messages by their numbers.
pub record MemoryBackend : Type 0 where
  pub chat_id : ℕ
  pub next_message_id : ℕ
  pub messages : ℕ → Option (List ℕ)

unfoldable pub new : ℕ → MemoryBackend
new chat_id = record { chat_id = chat_id; next_message_id = 1; messages = λ _. none }

unfoldable pub send_object : ℕ → ℕ → List ℕ → Text → Exec Error MemoryBackend RemoteObjectRef
send_object object_id generation payload sha256 s =
    let message_id = s.next_message_id in
    (
      ok (record {
        chat_id = s.chat_id;
        message_id = message_id;
        object_id = object_id;
        generation = generation;
        sha256 = sha256;
      }),
      record s {
        next_message_id = (message_id + 1) % 2 ^ 32;
        messages = λ m. if m == message_id then some payload else s.messages m;
      },
    )

unfoldable pub fetch_object : RemoteObjectRef → Exec Error MemoryBackend (List ℕ)
fetch_object r s = (ok_or (s.messages r.message_id) (message_not_found r.message_id), s)

unfoldable pub get_messages_by_id : List ℕ → Exec Error MemoryBackend (List (Option (List ℕ)))
get_messages_by_id ids s = (ok (map s.messages ids), s)

-- As a backend of the device.
abbrev pub memory : RemoteBackend
memory = record {
  State = MemoryBackend;
  send_object = send_object;
  fetch_object = fetch_object;
  get_messages_by_id = get_messages_by_id;
}
