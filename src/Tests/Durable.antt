-- ===== src/Tests/Durable.antt =====
-- A device over a small group, written to and flushed.
use telegram_block_device.Prelude.{ℕ, ◌*◌, ◌<◌, ◌≡◌, refl, some, List, [], ◌∷◌, ok, arith}
use telegram_block_device.Prelude.Bytes.{text_eq, digits_be, value_be, hex16}
use telegram_block_device.Prelude.Table.{find, delete, select, upsert, put, row_at}
use telegram_block_device.Format.Digest.{sha256_hex}
use telegram_block_device.Format.Envelope.{encode, decode}
use telegram_block_device.Format.Manifest.{Manifest, empty}
use telegram_block_device.Format.Tree.{chunks}
use telegram_block_device.Format.Tree.RoundTrip.{IsComplete}
use telegram_block_device.Format.Superblock.{Superblock, encode_text, strip_prefix, decode_text}
use telegram_block_device.Block.{locate}
use telegram_block_device.Cache.{
  DirtyObject, object_path, read_cache, write_cache, put_entry, read_file, write_file, log_write,
  mark_dirty, dirty_object, dirty_objects, stats, touches, extent, clear_dirty_and_wal,
  replace_from_manifest,
}
use telegram_block_device.Disk.{overwrite, bytes_from}
use telegram_block_device.Device.{
  BlockDevice, find_object, replace_object, entered, read_object, write_dirty_object, write_at,
  flush, max_generation,
}
use telegram_block_device.Device
use telegram_block_device.Backend.{RemoteBackend, Channel, IsReadable}
use telegram_block_device.Device.Flush.Complete.{IsCommitted, flush-IsCommitted}
use telegram_block_device.Format.Manifest
use telegram_block_device.Device.Holds.{Holds, in_zero}
use telegram_block_device.Device.Represents.{Represents}
use telegram_block_device.Device.Write.{write_at_lem}
use telegram_block_device.Telegram.Posts.{HasSuperblock}
use telegram_block_device.Telegram.Storage.{
  telegram, collect, get_messages_by_id, fetch_object, send_object, file_name, caption_of,
  upsert_pinned_superblock,
}
use telegram_block_device.Telegram.Manifests.{
  send_envelope, send_manifest, commit_manifest, fetch_manifest_from_superblock,
}
use telegram_block_device.Telegram.Backend.{telegram_channel, telegram-IsReadable}
use telegram_block_device.Telegram.Disk.{started, flush-recover}
use telegram_block_device.Tests.Sample.{
  sum_digest, small_map, small_map-IsSized, small_store, small_manifest, zeros, found,
}
use telegram_block_device.Tests.Codec.{
  number_json, number_json-IsLossless, number_tree_json, number_tree_json-ReadsBack, number_serde,
  number_serde-ReadsBack,
}
use telegram_block_device.Tests.Group.{Group, group_chat, group-Keeps, group-Answers}
use telegram_block_device.Tests.Chats.{new_group}

abbrev B : RemoteBackend
B = telegram group_chat sum_digest

abbrev chat_device : BlockDevice B
chat_device = record (Device.new B small_map new_group small_store small_manifest) {
  committer =
      some (commit_manifest group_chat sum_digest number_json number_tree_json number_serde 1);
}

abbrev channel : Channel B
channel = telegram_channel group_chat group-Keeps group-Answers sum_digest

each :
    (id : ℕ) → id * 4 < 12 → Holds sum_digest B channel chat_device id (bytes_from zeros (id * 4) 4)
unfolding dirty_object row_at bytes_from empty
each id h = in_zero (record {
  entry = Manifest.empty_object id;
  undirtied = refl;
  found = found id (omega arith);
  is_zero = refl;
  zeros = refl;
})

abbrev written : BlockDevice B
written = (write_at sum_digest number_json B 3 (9 ∷ 8 ∷ []) chat_device).1

written-Represents :
    Represents sum_digest B channel small_map (overwrite zeros 3 (9 ∷ 8 ∷ [])) written
written-Represents =
    (write_at_lem sum_digest number_json B channel
      (telegram-IsReadable group_chat group-Keeps group-Answers sum_digest) small_map
      small_map-IsSized 3 (9 ∷ 8 ∷ []) 2 zeros chat_device
      (record { same_map = refl; ascending = tt; each = each }) (omega arith) (omega arith)
      (omega arith)).1

flushed : (flush sum_digest number_json B written).0 ≡ ok tt
unfolding write_at flush find_object replace_object entered write_dirty_object read_object
    max_generation locate empty object_path read_cache write_cache put_entry read_file write_file
    log_write mark_dirty dirty_object dirty_objects stats touches extent clear_dirty_and_wal
    replace_from_manifest find delete select upsert put row_at commit_manifest send_manifest
    send_envelope send_object file_name caption_of fetch_object get_messages_by_id collect
    upsert_pinned_superblock encode decode sha256_hex text_eq digits_be value_be hex16 chunks
    strip_prefix decode_text encode_text
flushed = refl

abbrev no_row : DirtyObject
no_row = record { object_id = 0; generation = 0; cache_path = []; sha256 = [] }

abbrev first_row : List DirtyObject → DirtyObject
first_row [] = no_row
first_row (row ∷ rows) = row

abbrev others : List DirtyObject → List DirtyObject
others [] = []
others (row ∷ rows) = rows

dirty :
    written.store.dirty_rows ≡ first_row written.store.dirty_rows ∷ others written.store.dirty_rows
unfolding write_at find_object write_dirty_object read_object locate empty object_path read_cache
    write_cache put_entry read_file write_file log_write mark_dirty dirty_object stats touches
    extent find delete select upsert put row_at
dirty = refl

written-IsComplete : IsComplete written.manifest
unfolding write_at find_object write_dirty_object read_object locate empty object_path read_cache
    write_cache put_entry read_file write_file log_write mark_dirty dirty_object stats touches
    extent find delete select upsert put row_at
written-IsComplete = record {
  magic = refl;
  format_version = refl;
  object_count = refl;
  numbered = (refl, (refl, (refl, tt)));
}

held :
    written.committer
    ≡ some (commit_manifest group_chat sum_digest number_json number_tree_json number_serde 1)
unfolding write_at find_object write_dirty_object read_object locate empty object_path read_cache
    write_cache put_entry read_file write_file log_write mark_dirty dirty_object stats touches
    extent find delete select upsert put row_at
held = refl

abbrev after_flush : Group
after_flush = (flush sum_digest number_json B written).1.backend

flush-recover_example :
    (b : Superblock) × (manifest : Manifest) × (b.manifest_generation ≡ manifest.generation)
    × HasSuperblock group_chat group-Keeps sum_digest number_json number_tree_json number_serde
        after_flush b
    × ((fetch_manifest_from_superblock group_chat sum_digest number_json number_tree_json
          number_serde b after_flush).0
        ≡ ok manifest)
    × Represents sum_digest B channel small_map (overwrite zeros 3 (9 ∷ 8 ∷ [])) (
        started group_chat group-Keeps group-Answers sum_digest number_json number_tree_json
          number_serde small_map
          (overwrite zeros 3 (9 ∷ 8 ∷ []))
          []
          0
          manifest
          after_flush)
flush-recover_example =
    flush-recover group_chat group-Keeps group-Answers sum_digest number_json number_tree_json
      number_serde small_map (overwrite zeros 3 (9 ∷ 8 ∷ [])) 1 (first_row written.store.dirty_rows)
      (others written.store.dirty_rows) written after_flush [] 0 small_map-IsSized
      written-Represents number_json-IsLossless number_tree_json-ReadsBack number_serde-ReadsBack
      written-IsComplete dirty held flushed (λ j x h. h)

telegram-IsReadable_example :
    IsReadable sum_digest
      (telegram group_chat sum_digest)
      (telegram_channel group_chat group-Keeps group-Answers sum_digest)
telegram-IsReadable_example = telegram-IsReadable group_chat group-Keeps group-Answers sum_digest

flush-IsCommitted_example :
    IsCommitted sum_digest number_json B
      (commit_manifest group_chat sum_digest number_json number_tree_json number_serde 1)
      written
      (flush sum_digest number_json B written).1
flush-IsCommitted_example =
    flush-IsCommitted sum_digest number_json B (first_row written.store.dirty_rows)
      (others written.store.dirty_rows)
      (commit_manifest group_chat sum_digest number_json number_tree_json number_serde 1) written
      dirty held flushed
