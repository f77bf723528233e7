-- ===== src/Shutdown/Tests.antt =====
-- A client that is there when the interrupt comes.
use sr_server.Prelude.{◌≢◌, refl, true, false, [], ◌∷◌}
use sr_server.Shutdown.{
  Handler, Input, from_client, sigint, panics, turn, started, Reaches, at_start, after,
}
use sr_server.Shutdown.Waiting.{Waits, Informed, handle_shutdown_lem}

abbrev one_client : Handler
one_client = record { clients = 7 ∷ []; sigint_received = false; wait_group = 2; notified = [] }

abbrev interrupted : Handler
interrupted = record { clients = 7 ∷ []; sigint_received = true; wait_group = 1; notified = 7 ∷ [] }

reaches : Reaches (sigint ∷ from_client 7 ∷ []) interrupted
unfolding turn
reaches = after {h = one_client} sigint (after {h = started} (from_client 7) at_start refl) refl

handle_shutdown_lem_example :
    Waits interrupted × Informed interrupted × ((i : Input) → turn i interrupted ≢ panics)
handle_shutdown_lem_example = handle_shutdown_lem (sigint ∷ from_client 7 ∷ []) interrupted reaches
