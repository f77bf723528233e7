-- ===== src/Setup/Tests.antt =====
-- The start of a server in production.
use sr_server.Prelude.{true, [], ◌∷◌, codes, pos}
use sr_server.Redis.Memory.{memory, memory-Documented}
use sr_server.Routes.Quiet.{Reads}
use sr_server.Setup.{Draw, check_games_and_players}
use sr_server.Setup.Skipped.{check_games_and_players-Reads}

abbrev draw : Draw
draw = record { username = codes "ada"; id = codes "p1"; hue = pos 7 }

check_games_and_players-Reads_example :
    Reads memory memory-Documented
      (check_games_and_players memory true (codes "g" ∷ []) (λ s. s) (draw ∷ []))
check_games_and_players-Reads_example =
    check_games_and_players-Reads memory memory-Documented (codes "g" ∷ []) (λ s. s) (draw ∷ [])
