-- ===== src/Setup/Skipped.antt =====
-- In production nothing is made.
use sr_server.Prelude.{refl, true, List, Text, pure}
use sr_server.Fault.{Fault, panicked, redis_error, redis}
use sr_server.Redis.{Redis}
use sr_server.Redis.Documented.{Documented}
use sr_server.Player.Stored.{player_ids, player_prefix}
use sr_server.Game.Players.{games}
use sr_server.Routes.Quiet.{Reads, Reads-bind, Reads-wrap, Reads-hgetall}
use sr_server.Setup.{Draw, add_hardcoded_games, add_hardcoded_players, check_games_and_players}

module _ (r : Redis) (doc : Documented r) (game_names : List Text) where
  open doc use {view}

  Reads-keys : (k : Text) → Reads r doc (redis (r.keys k))
  unfolding Reads
  Reads-keys k = Reads-wrap r doc (λ _. redis_error) (r.keys k) (doc.keys_view k)

  Reads-pure : {A : Type 0} (a : A) → Reads r doc {E = Fault} (pure a)
  unfolding Reads
  Reads-pure a d = refl

  -- In production CheckGamesAndPlayers leaves all data of redis as it is, however it ends.
  pub check_games_and_players-Reads :
      (title : Text → Text) (usernames : List Draw)
      → Reads r doc (check_games_and_players r true game_names title usernames)
  unfolding check_games_and_players add_hardcoded_games add_hardcoded_players
  check_games_and_players-Reads title usernames =
      Reads-wrap r doc (λ _. panicked) _
        (Reads-bind r doc _ _ (Reads-bind r doc _ _ (Reads-keys games) (λ ks. Reads-pure tt)) (λ _.
          Reads-bind r doc _ _ (Reads-keys player_prefix) (λ ks.
            Reads-bind r doc _ _
              (Reads-wrap r doc (λ _. redis_error) (r.hgetall player_ids)
                (Reads-hgetall r doc player_ids))
              (λ _. Reads-pure tt))))
