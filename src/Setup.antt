-- ===== src/Setup.antt =====
-- setup/defaultData.go: the games and players of the configuration, made at the start. What it logs
-- is left out, and with it what it reads only for that, but not that reading may fail. `title` is
-- strings.Title.
mod Tests
pub mod Skipped
use sr_server.Prelude.{
  Bool, true, false, not, ◌&&◌, List, [], ◌∷◌, length, ltb, if◌then◌else◌, Text, codes, ℤ, pos,
  Exec, pure, wrap, ◌>>=◌, ◌>>◌,
}
use sr_server.Fault.{Fault, panicked, redis}
use sr_server.Redis.{Redis, num}
use sr_server.Player.{Player, make}
use sr_server.Player.Stored.{player_ids, player_prefix, create}
use sr_server.Game.Channels.{channel}
use sr_server.Game.Players.{games, add_player}

-- A username of config.HardcodedUsernames with the ID and the hue that Make draws for it.
pub record Draw : Type 0 where
  pub username : Text
  pub id : Text
  pub hue : ℤ

module _ (r : Redis) (is_production : Bool) (game_names : List Text) where
  -- the loop of addHardcodedGames
  add_games : List Text → Exec r.Db Fault (Unit {0})
  add_games [] = pure tt
  add_games (game ∷ names) =
      redis (r.hmset (channel games game) ((codes "event_id", num (pos 0)) ∷ [])) >> add_games names

  -- addHardcodedGames
  unfoldable pub add_hardcoded_games : Exec r.Db Fault (Unit {0})
  unfolding add_games
  add_hardcoded_games = do
    game_keys ← redis (r.keys games)
    (if not is_production && ltb (length game_keys) (length game_names)
        then add_games game_names
        else pure tt)

  add_to_all : List Text → Player → Exec r.Db Fault (Unit {0})
  add_to_all [] plr = pure tt
  add_to_all (game_id ∷ ids) plr = add_player r game_id plr >> add_to_all ids plr

  -- the loop of addHardcodedPlayers
  add_players : (Text → Text) → List Draw → Exec r.Db Fault (Unit {0})
  unfolding add_to_all make
  add_players title [] = pure tt
  add_players title (u ∷ us) =
      let plr = make u.id u.hue u.username (title u.username) in
      create r plr >> add_to_all game_names plr >> add_players title us

  -- addHardcodedPlayers
  unfoldable pub add_hardcoded_players : (Text → Text) → List Draw → Exec r.Db Fault (Unit {0})
  unfolding add_players
  add_hardcoded_players title usernames = do
    player_keys ← redis (r.keys player_prefix)
    redis (r.hgetall player_ids)
    (if not is_production && ltb (length player_keys) (length usernames)
        then add_players title usernames
        else pure tt)

  -- CheckGamesAndPlayers, which panics on any error
  unfoldable pub check_games_and_players : (Text → Text) → List Draw → Exec r.Db Fault (Unit {0})
  unfolding add_hardcoded_games add_hardcoded_players
  check_games_and_players title usernames =
      wrap (λ _. panicked) (add_hardcoded_games >> add_hardcoded_players title usernames)
