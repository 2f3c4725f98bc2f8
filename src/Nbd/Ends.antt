-- ===== src/Nbd/Ends.antt =====
-- Every connection comes to an end, whatever bytes the client sends: the loops have rounds enough.
pub mod Takes
pub mod Requests
pub mod Options
use telegram_block_device.Prelude.{ℕ, ◌≢◌, List, Result, ok, err, continue}
use telegram_block_device.Prelude.Bytes.{Text}
use telegram_block_device.Nbd.{NbdBackend, NbdServerOptions, NbdError, Connection, loop_cut}
use telegram_block_device.Nbd.Handshake.{negotiate}
use telegram_block_device.Nbd.Serve.{serve, handle_client}
use telegram_block_device.Nbd.Ends.Takes.{NotCut}
use telegram_block_device.Nbd.Ends.Requests.{serve-NotCut}
use telegram_block_device.Nbd.Ends.Options.{negotiate-NotCut}

module _ (B : NbdBackend) (options : NbdServerOptions) where
  both :
      (r : Result NbdError (Unit {0}) × Connection B)
      → NotCut B r
      → NotCut B (continue r.0 (λ _. serve B options.device_size) r.1)
  both (ok _, d) g = serve-NotCut B options.device_size d
  both (err x, d) g = g

  cut : (r : Result NbdError (Unit {0}) × Connection B) → NotCut B r → r.0 ≢ err loop_cut
  cut (ok _, d) g h = cc
  cut (err x, d) g h = g (cc)

-- A connection comes to an end for whatever bytes the client sends, and whatever the backend does: the
-- rounds that the loops of the negotiation, of the requests and of a discarded payload have are enough.
pub handle_client_ends :
    (lossy : List ℕ → Text) (B : NbdBackend) (options : NbdServerOptions) (c : Connection B)
    → (handle_client lossy B options c).0 ≢ err loop_cut
unfolding handle_client
handle_client_ends lossy B options c =
    cut B options _
      (both B options (negotiate lossy B options c) (negotiate-NotCut B lossy options c))
