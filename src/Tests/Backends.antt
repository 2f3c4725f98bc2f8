-- ===== src/Tests/Backends.antt =====
-- The theorem on the backend in memory at a concrete input.
use telegram_block_device.Prelude.{[], ◌∷◌, List, arith}
use telegram_block_device.Backend.Memory.{MemoryBackend, new, send_object}
use telegram_block_device.Backend.Memory.Keeps.{Sending, Stored, send_all, fetch_all-send_all}

abbrev one_message : MemoryBackend
one_message = (send_object 0 1 (5 ∷ []) [] (new 1)).1

abbrev two_more : List Sending
two_more =
    record { object_id = 3; generation = 2; payload = 8 ∷ 9 ∷ []; sha256 = [] }
    ∷ record { object_id = 0; generation = 3; payload = 7 ∷ []; sha256 = [] }
    ∷ []

fetch_all-send_all_example : Stored two_more one_message (send_all two_more one_message)
unfolding send_object new
fetch_all-send_all_example = fetch_all-send_all two_more one_message (omega arith)
