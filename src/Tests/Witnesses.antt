-- ===== src/Tests/Witnesses.antt =====
-- The theorems at concrete inputs.
use telegram_block_device.Prelude.{ℕ, ◌+◌, ◌*◌, ◌<◌, ◌≡◌, refl, [], ◌∷◌, ok, arith, slice}
use telegram_block_device.Prelude.Bytes.{digits_be, codes, IsBelow}
use telegram_block_device.Format.Envelope.{ObjectEnvelope, encode, decode, layout}
use telegram_block_device.Format.Envelope.RoundTrip.{decode-encode}
use telegram_block_device.Format.Envelope.Strict.{decode_strict}
use telegram_block_device.Block.{locate, object_count}
use telegram_block_device.Block.Bounds.{locate_lem}
use telegram_block_device.Disk.{bytes_from, overwrite}
use telegram_block_device.Device.{read_object, read_at, read_ahead, write_at, flush}
use telegram_block_device.Device.Flush.Durable.{flush_lem}
use telegram_block_device.Device.Flush.Commit.{Flushed}
use telegram_block_device.Tests.Written.{written_device, written-Represents, written-KeepsMessages}
use telegram_block_device.Device.Represents.{Represents}
use telegram_block_device.Device.Read.{read_at_lem, read_object-Represents, read_ahead-Represents}
use telegram_block_device.Device.Write.{write_at_lem}
use telegram_block_device.Tests.Log.{log_backend, log_channel, log-IsReadable}
use telegram_block_device.Tests.Sample.{
  sum_digest, no_json, small_map, small_map-IsSized, small_device, zeros, small_device-Represents,
}

abbrev hello : ObjectEnvelope
hello = record {
  object_id = 7;
  generation = 3;
  object_size = 8;
  flags = 0;
  payload = codes "hello";
}

decode-encode_example : decode sum_digest (encode sum_digest hello) 7 3 ≡ ok hello
decode-encode_example = decode-encode sum_digest hello (omega arith)

hello-IsBelow : IsBelow 256 (encode sum_digest hello)
unfolding encode digits_be
hello-IsBelow = omega arith

decode_strict_example :
    (encode sum_digest hello ≡ layout sum_digest (slice 10 12 (encode sum_digest hello)) hello)
    × (◌≡◌ {A = ℕ} 7 7)
    × (◌≡◌ {A = ℕ} 3 3)
decode_strict_example =
    decode_strict sum_digest (encode sum_digest hello) 7 3 hello hello-IsBelow decode-encode_example

locate_lem_example :
    (id : ℕ) × (at : ℕ) × (locate small_map 9 ≡ ok (id, at))
    × (id * 4 + at ≡ 9)
    × (at < 4)
    × (id < 3)
unfolding object_count
locate_lem_example = locate_lem small_map 9 3 (omega arith) (omega arith) refl

read_object-Represents_example :
    ((read_object sum_digest no_json log_backend 1 small_device).0 ≡ ok (bytes_from zeros 4 4))
    × Represents sum_digest log_backend log_channel small_map zeros
        (read_object sum_digest no_json log_backend 1 small_device).1
read_object-Represents_example =
    read_object-Represents sum_digest no_json log_backend log_channel (log-IsReadable sum_digest)
      small_map zeros small_map-IsSized 1 small_device small_device-Represents (omega arith)

read_at_lem_example :
    ((read_at sum_digest no_json log_backend 2 7 small_device).0 ≡ ok (bytes_from zeros 2 7))
    × Represents sum_digest log_backend log_channel small_map zeros
        (read_at sum_digest no_json log_backend 2 7 small_device).1
read_at_lem_example =
    read_at_lem sum_digest no_json log_backend log_channel (log-IsReadable sum_digest) small_map
      zeros small_map-IsSized 2 7 small_device small_device-Represents (omega arith)

write_at_lem_example :
    ((write_at sum_digest no_json log_backend 3 (9 ∷ 8 ∷ []) small_device).0 ≡ ok tt)
    × Represents sum_digest log_backend log_channel small_map
        (overwrite zeros 3 (9 ∷ 8 ∷ []))
        (write_at sum_digest no_json log_backend 3 (9 ∷ 8 ∷ []) small_device).1
write_at_lem_example =
    write_at_lem sum_digest no_json log_backend log_channel (log-IsReadable sum_digest) small_map
      small_map-IsSized 3 (9 ∷ 8 ∷ []) 2 zeros small_device small_device-Represents (omega arith)
      (omega arith) (omega arith)

read_ahead-Represents_example :
    Represents sum_digest log_backend log_channel small_map
      (overwrite zeros 3 (9 ∷ 8 ∷ []))
      (read_ahead sum_digest no_json log_backend 4 written_device)
read_ahead-Represents_example =
    read_ahead-Represents sum_digest no_json log_backend log_channel small_map
      (overwrite zeros 3 (9 ∷ 8 ∷ [])) 4 written_device small_map-IsSized written-Represents

flush_lem_example :
    Flushed sum_digest no_json log_backend log_channel small_map
      (overwrite zeros 3 (9 ∷ 8 ∷ []))
      written_device.committer
      (flush sum_digest no_json log_backend written_device)
flush_lem_example =
    flush_lem sum_digest no_json log_backend log_channel small_map (overwrite zeros 3 (9 ∷ 8 ∷ []))
      small_map-IsSized written_device written-Represents written-KeepsMessages
