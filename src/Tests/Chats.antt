-- ===== src/Tests/Chats.antt =====
-- The theorems on the Telegram client at a small group.
use telegram_block_device.Prelude.{ℕ, ◌≡◌, refl, none, some, [], ◌∷◌, ◌++◌, Result, ok, err, map}
use telegram_block_device.Prelude.Bytes.{Text, codes, text_eq, digits_be, value_be, hex16}
use telegram_block_device.Format.Digest.{sha256_hex}
use telegram_block_device.Format.Envelope.{encode, decode}
use telegram_block_device.Format.Manifest.{Manifest, empty}
use telegram_block_device.Format.Tree.{chunks}
use telegram_block_device.Format.Tree.RoundTrip.{IsComplete}
use telegram_block_device.Format.Superblock.{
  Superblock, SuperblockJson, text_prefix, for_manifest, encode_text, strip_prefix, decode_text,
}
use telegram_block_device.Errors.{Error, json}
use telegram_block_device.Telegram.Posts.{HasSuperblock}
use telegram_block_device.Telegram.Storage.{
  recover_superblock_text, collect, get_messages_by_id, fetch_object, send_object, file_name,
  caption_of, upsert_pinned_superblock,
}
use telegram_block_device.Telegram.Manifests.{
  send_envelope, send_manifest, commit_manifest, fetch_manifest_from_superblock,
}
use telegram_block_device.Telegram.Distinct.{from, Distinct-from}
use telegram_block_device.Telegram.Reads.{read_all, get_messages_by_id_lem}
use telegram_block_device.Telegram.Recover.{fetch_manifest_from_superblock-commit_manifest}
use telegram_block_device.Telegram.Scan.{Recovers, recover_superblock_text_lem}
use telegram_block_device.Telegram.Safe.{commit_manifest-Safe}
use telegram_block_device.Tests.Sample.{sum_digest}
use telegram_block_device.Tests.Codec.{
  number_json, number_json-IsLossless, number_tree_json, number_tree_json-ReadsBack, number_serde,
  number_serde-ReadsBack,
}
use telegram_block_device.Tests.Group.{Note, Group, group_chat, group-Keeps, group-Answers}

abbrev small_manifest : Manifest
unfolding empty
small_manifest = record (empty 7 4 1) { generation = 5 }

abbrev pub new_group : Group
new_group = record { messages = []; pinned = none }

abbrev after_commit : Group
after_commit =
    (commit_manifest group_chat sum_digest number_json number_tree_json number_serde 1
      small_manifest 4 2 4 new_group).1

committed :
    (commit_manifest group_chat sum_digest number_json number_tree_json number_serde 1
      small_manifest 4 2 4 new_group).0
    ≡ ok tt
unfolding commit_manifest send_manifest send_envelope send_object file_name caption_of fetch_object
    get_messages_by_id collect upsert_pinned_superblock encode decode sha256_hex text_eq digits_be
    value_be hex16 chunks strip_prefix decode_text encode_text small_manifest
committed = refl

small_manifest-IsComplete : IsComplete small_manifest
unfolding small_manifest empty
small_manifest-IsComplete = record {
  magic = refl;
  format_version = refl;
  object_count = refl;
  numbered = (refl, tt);
}

fetch_manifest_from_superblock-commit_manifest_example :
    (b : Superblock) × (b.manifest_generation ≡ small_manifest.generation)
    × HasSuperblock group_chat group-Keeps sum_digest number_json number_tree_json number_serde
        after_commit b
    × ((fetch_manifest_from_superblock group_chat sum_digest number_json number_tree_json
          number_serde b after_commit).0
        ≡ ok small_manifest)
fetch_manifest_from_superblock-commit_manifest_example =
    fetch_manifest_from_superblock-commit_manifest group_chat group-Keeps sum_digest number_json
      number_tree_json number_serde 1 small_manifest 4 2 4 new_group after_commit group-Answers
      number_json-IsLossless number_tree_json-ReadsBack number_serde-ReadsBack
      small_manifest-IsComplete committed (λ j x h. h)

get_messages_by_id_lem_example :
    ((get_messages_by_id group_chat (from 0 101) after_commit).0
      ≡ read_all group_chat group-Keeps (map (group-Keeps.message after_commit) (from 0 101)))
    × ((j : ℕ)
        → group-Keeps.message (get_messages_by_id group_chat (from 0 101) after_commit).1 j
          ≡ group-Keeps.message after_commit j)
get_messages_by_id_lem_example =
    get_messages_by_id_lem group_chat group-Keeps group-Answers (from 0 101) after_commit
      (Distinct-from 0 101)

-- A superblock as its generation.
abbrev of_generation : ℕ → Superblock
of_generation g =
    for_manifest 0 7 4 2 4
      (record { chat_id = 100; message_id = 0; object_id = 0; generation = g; sha256 = [] }) none

abbrev read_generation : Text → Result Error Superblock
read_generation [] = err json
read_generation (g ∷ rest) = ok (of_generation g)

abbrev generation_serde : SuperblockJson
generation_serde = record {
  to_string_pretty = λ b. b.manifest_generation ∷ [];
  from_str = read_generation;
}

abbrev posted : ℕ → Text → Note
posted id text = record { id = id; text = text; media = none }

abbrev posts : Group
posts = record {
  messages =
      posted 0 (text_prefix ++ 3 ∷ [])
      ∷ posted 1 (codes "hello")
      ∷ posted 2 (text_prefix ++ 7 ∷ [])
      ∷ posted 3 (text_prefix ++ 5 ∷ [])
      ∷ [];
  pinned = none;
}

recover_superblock_text_lem_example :
    Recovers group_chat generation_serde
      (posted 3 (text_prefix ++ 5 ∷ [])
        ∷ posted 2 (text_prefix ++ 7 ∷ [])
        ∷ posted 1 (codes "hello")
        ∷ [])
      posts
      (recover_superblock_text group_chat generation_serde 3 posts)
recover_superblock_text_lem_example =
    recover_superblock_text_lem group_chat generation_serde 3 posts posts
      (posted 3 (text_prefix ++ 5 ∷ [])
        ∷ posted 2 (text_prefix ++ 7 ∷ [])
        ∷ posted 1 (codes "hello")
        ∷ [])
      refl

commit_manifest-Safe_example :
    group-Keeps.message
      (commit_manifest group_chat sum_digest number_json number_tree_json number_serde 1
        small_manifest 4 2 4 posts).1
      1
    ≡ some (posted 1 (codes "hello"))
commit_manifest-Safe_example =
    commit_manifest-Safe group_chat group-Keeps sum_digest number_json number_tree_json number_serde
      1 small_manifest 4 2 4 posts 1 (posted 1 (codes "hello")) refl
