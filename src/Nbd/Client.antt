-- ===== src/Nbd/Client.antt =====
-- A whole connection, from the greeting to its end.
use telegram_block_device.Prelude.{ℕ, ◌+◌, ◌^◌, ◌≤◌, ◌<◌, ◌≡◌, refl, Option, List, ◌++◌, length}
use telegram_block_device.Prelude.Bytes.{Text}
use telegram_block_device.Nbd.{NbdBackend, NbdServerOptions}
use telegram_block_device.Nbd.Serve.{serve, handle_client}
use telegram_block_device.Nbd.Wire.{Sent, AllSent, IsClosing, IsDisk, stream}
use telegram_block_device.Nbd.Parse.{conn}
use telegram_block_device.Nbd.Session.{Outcome, serve-stream}
use telegram_block_device.Nbd.Opening.{
  Asked, AllRefused, refusals, greeting, acceptance, opening, negotiate-opening,
}

-- After the negotiation the client is served.
pub connection :
    (lossy : List ℕ → Text) (B : NbdBackend) (options : NbdServerOptions) (flags : ℕ)
    (os : List Asked) (name wishes rest out : List ℕ) (s : B.State)
    → lossy name ≡ options.export_name
    → flags < 2 ^ 32
    → AllRefused os
    → 2 ≤ length wishes
    → 4 + length name + length wishes < 2 ^ 32
    → handle_client lossy B options
        (conn B (opening lossy B options flags os name wishes rest) out s)
      ≡ serve B options.device_size
          (conn B rest (out ++ (greeting ++ (refusals os ++ acceptance lossy B options))) s)
unfolding handle_client
connection lossy B options flags os name wishes rest out s right small all two fits =
    rw (negotiate-opening lossy B options flags os name wishes rest out s right small all two fits)
      refl

-- The connection of a client that asks for options that the server does not have, then for the export
-- by its name, sends commands, and closes: it is greeted, refused those options, accepted, and then
-- served as by the disk, up to a failure of the backend.
pub handle_client_lem :
    (lossy : List ℕ → Text) (B : NbdBackend) (options : NbdServerOptions)
    (D : IsDisk B options.device_size) (flags : ℕ) (os : List Asked) (name wishes : List ℕ)
    (sents : List Sent) (last : Option ℕ) (f : ℕ → ℕ) (out : List ℕ) (s : B.State)
    → lossy name ≡ options.export_name
    → flags < 2 ^ 32
    → AllRefused os
    → 2 ≤ length wishes
    → 4 + length name + length wishes < 2 ^ 32
    → D.Holds f s
    → AllSent sents
    → IsClosing last
    → Outcome B options.device_size D last f sents
        (out ++ (greeting ++ (refusals os ++ acceptance lossy B options)))
        (handle_client lossy B options
          (conn B (opening lossy B options flags os name wishes (stream sents last)) out s))
handle_client_lem lossy B options D flags os name wishes sents last f out s right small all two fits
      h sent closes =
    rw
      (connection lossy B options flags os name wishes (stream sents last) out s right small all two
        fits)
      (serve-stream B options.device_size D sents last f _ s h sent closes)
