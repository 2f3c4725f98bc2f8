-- ===== src/Tests/Connections.antt =====
-- The theorems on the server at a concrete connection.
use telegram_block_device.Prelude.{
  ℕ, ◌≡◌, ◌≢◌, refl, arith, some, List, [], ◌∷◌, ◌++◌, ok, err, none, replicate, length-replicate,
}
use telegram_block_device.Prelude.Bytes.{codes}
use telegram_block_device.Nbd.{NbdServerOptions, opt_structured_reply, loop_cut}
use telegram_block_device.Nbd.Stream.{discard_loop}
use telegram_block_device.Nbd.Serve.{Request, handle_client, read_from}
use telegram_block_device.Nbd.Handshake.{negotiate}
use telegram_block_device.Nbd.Wire.{Sent, AllSent, read, write, flush, unsupported, header, stream}
use telegram_block_device.Nbd.Parse.{conn, read_from-header}
use telegram_block_device.Nbd.Session.{Outcome, discard_loop_lem}
use telegram_block_device.Nbd.Opening.{
  Asked, AllRefused, refusals, greeting, acceptance, opening, negotiate-opening,
}
use telegram_block_device.Nbd.Client.{handle_client_lem}
use telegram_block_device.Nbd.Device.{
  device_backend, device_disk, device_disk-Holds, handle_client-BlockDevice,
}
use telegram_block_device.Nbd.Ends.{handle_client_ends}
use telegram_block_device.Device.Attempt.{Attempt, write_at_Attempt}
use telegram_block_device.Device.{write_at}
use telegram_block_device.Tests.Log.{log_backend, log_channel, log-IsReadable}
use telegram_block_device.Tests.Sample.{
  sum_digest, no_json, small_map, small_map-IsSized, small_device, zeros, small_device-Represents,
}

abbrev small_options : NbdServerOptions
small_options = record {
  bind = codes "127.0.0.1:10809";
  export_name = codes "tgdrive";
  device_size = 12;
  logical_block_size = 2;
  max_inflight = 64;
}

-- A write over the border of two objects, a read of it, a trim, and a read behind the end.
abbrev commands : List Sent
commands =
    record { flags = 0; handle = 1; command = write 3 (9 ∷ 8 ∷ []) }
    ∷ record { flags = 0; handle = 2; command = read 2 4 }
    ∷ record { flags = 1; handle = 3; command = unsupported 4 0 2 }
    ∷ record { flags = 0; handle = 4; command = flush }
    ∷ record { flags = 0; handle = 5; command = read 11 2 }
    ∷ []

abbrev structured : List Asked
structured = record { option = opt_structured_reply; payload = [] } ∷ []

structured-AllRefused : AllRefused structured
structured-AllRefused = omega arith

commands-AllSent : AllSent commands
commands-AllSent = omega arith

handle_client-BlockDevice_example :
    Outcome
      (device_backend sum_digest no_json log_backend)
      12
      (device_disk sum_digest no_json log_backend log_channel
        (log-IsReadable sum_digest)
        small_map
        small_map-IsSized)
      (some 6)
      zeros
      commands
      ([]
        ++ (greeting
            ++ (refusals structured
                ++ acceptance
                    (λ b. b)
                    (device_backend sum_digest no_json log_backend)
                    small_options)))
      (handle_client
        (λ b. b)
        (device_backend sum_digest no_json log_backend)
        small_options
        (conn
          (device_backend sum_digest no_json log_backend)
          (opening
            (λ b. b)
            (device_backend sum_digest no_json log_backend)
            small_options
            3
            structured
            (codes "tgdrive")
            (0 ∷ 0 ∷ [])
            (stream commands (some 6)))
          []
          small_device))
handle_client-BlockDevice_example =
    handle_client-BlockDevice sum_digest no_json log_backend log_channel (log-IsReadable sum_digest)
      small_map small_map-IsSized (λ b. b) small_options refl 3 structured (codes "tgdrive")
      (0 ∷ 0 ∷ []) commands (some 6) zeros [] small_device refl (omega arith) structured-AllRefused
      (omega arith) (omega arith) (small_device-Represents, tt) commands-AllSent (omega arith)

served :
    (device_disk sum_digest no_json log_backend log_channel
        (log-IsReadable sum_digest)
        small_map
        small_map-IsSized).Holds
      zeros small_device
served =
    device_disk-Holds sum_digest no_json log_backend log_channel (log-IsReadable sum_digest)
      small_map small_map-IsSized zeros small_device (small_device-Represents, tt)

handle_client_lem_example :
    Outcome
      (device_backend sum_digest no_json log_backend)
      12
      (device_disk sum_digest no_json log_backend log_channel
        (log-IsReadable sum_digest)
        small_map
        small_map-IsSized)
      none
      zeros
      commands
      ([]
        ++ (greeting
            ++ (refusals []
                ++ acceptance
                    (λ b. b)
                    (device_backend sum_digest no_json log_backend)
                    small_options)))
      (handle_client
        (λ b. b)
        (device_backend sum_digest no_json log_backend)
        small_options
        (conn
          (device_backend sum_digest no_json log_backend)
          (opening
            (λ b. b)
            (device_backend sum_digest no_json log_backend)
            small_options
            3
            []
            (codes "tgdrive")
            (0 ∷ 0 ∷ [])
            (stream commands none))
          []
          small_device))
handle_client_lem_example =
    handle_client_lem (λ b. b) (device_backend sum_digest no_json log_backend) small_options
      (device_disk sum_digest no_json log_backend log_channel (log-IsReadable sum_digest) small_map
        small_map-IsSized)
      3 [] (codes "tgdrive") (0 ∷ 0 ∷ []) commands none zeros [] small_device refl (omega arith) tt
      (omega arith) (omega arith) served commands-AllSent tt

negotiate-opening_example :
    negotiate
      (λ b. b)
      (device_backend sum_digest no_json log_backend)
      small_options
      (conn
        (device_backend sum_digest no_json log_backend)
        (opening
          (λ b. b)
          (device_backend sum_digest no_json log_backend)
          small_options
          3
          structured
          (codes "tgdrive")
          (0 ∷ 0 ∷ [])
          (5 ∷ []))
        []
        small_device)
    ≡ (
      ok tt,
      conn
          (device_backend sum_digest no_json log_backend)
          (5 ∷ [])
          ([]
            ++ (greeting
                ++ (refusals structured
                    ++ acceptance
                        (λ b. b)
                        (device_backend sum_digest no_json log_backend)
                        small_options)))
          small_device,
    )
negotiate-opening_example =
    negotiate-opening (λ b. b) (device_backend sum_digest no_json log_backend) small_options 3
      structured (codes "tgdrive") (0 ∷ 0 ∷ []) (5 ∷ []) [] small_device refl (omega arith)
      structured-AllRefused (omega arith) (omega arith)

-- A client that sends three bytes and goes.
handle_client_ends_example :
    (handle_client
      (λ b. b)
      (device_backend sum_digest no_json log_backend)
      small_options
      (conn (device_backend sum_digest no_json log_backend) (0 ∷ 0 ∷ 3 ∷ []) [] small_device)).0
    ≢ err loop_cut
handle_client_ends_example =
    handle_client_ends (λ b. b) (device_backend sum_digest no_json log_backend) small_options
      (conn (device_backend sum_digest no_json log_backend) (0 ∷ 0 ∷ 3 ∷ []) [] small_device)

discard_loop_lem_example :
    discard_loop (device_backend sum_digest no_json log_backend) 9000 9000 (
      conn
        (device_backend sum_digest no_json log_backend)
        (replicate 9000 7 ++ 5 ∷ [])
        []
        small_device)
    ≡ (ok tt, conn (device_backend sum_digest no_json log_backend) (5 ∷ []) [] small_device)
discard_loop_lem_example =
    discard_loop_lem (device_backend sum_digest no_json log_backend) 9000 9000 (replicate 9000 7)
      (5 ∷ []) [] small_device (length-replicate {A = ℕ} 9000 7) (omega arith)

abbrev a_read : Request
a_read = record { command = 0; handle = 77; offset = 4096; len = 512 }

read_from-header_example :
    read_from (device_backend sum_digest no_json log_backend) (
      conn
        (device_backend sum_digest no_json log_backend)
        (header 1 a_read (5 ∷ []))
        []
        small_device)
    ≡ (ok a_read, conn (device_backend sum_digest no_json log_backend) (5 ∷ []) [] small_device)
read_from-header_example =
    read_from-header (device_backend sum_digest no_json log_backend) 1 a_read (5 ∷ []) []
      small_device (omega arith) (omega arith)

write_at_Attempt_example :
    Attempt sum_digest no_json log_backend log_channel
      (log-IsReadable sum_digest)
      small_map
      small_map-IsSized
      zeros
      small_device
      3
      (9 ∷ 8 ∷ [])
      (write_at sum_digest no_json log_backend 3 (9 ∷ 8 ∷ []) small_device)
write_at_Attempt_example =
    write_at_Attempt sum_digest no_json log_backend log_channel (log-IsReadable sum_digest)
      small_map small_map-IsSized 3 (9 ∷ 8 ∷ []) zeros small_device small_device-Represents
      (omega arith)
