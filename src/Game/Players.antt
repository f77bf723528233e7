-- ===== src/Game/Players.antt =====
-- game/game.go and game/playerManager.go: the players of a game. The set players:<game ID> holds
-- their IDs.
pub mod Connections
pub mod Listed
pub mod Members
use sr_server.Prelude.{
  ℕ, zero, suc, Bool, true, false, not, ◌&&◌, Option, none, some, List, [], ◌∷◌, ◌++◌, length, ltb,
  if◌then◌else◌, Text, codes, ℤ, pos, negsuc, eq_ℤ, Exec, ok, err, pure, raise, ◌>>=◌, ◌>>◌,
}
use sr_server.Fault.{
  Fault, game_not_found, transaction_aborted, rejected, panicked, redis, or_panic, expect,
  refuse_if,
}
use sr_server.Redis.{Redis, Hash, Command, exists, sadd, publish}
use sr_server.Redis.Transaction.{transaction}
use sr_server.Player.{Player, info}
use sr_server.Player
use sr_server.Player.Stored.{scan, is_blank, modify_connections}
use sr_server.Update.{
  PlayerUpdate, player_online, player_add, player_update_json, make_redis_command, is_empty,
  put_key,
}
use sr_server.Game.Channels.{channel, updates}
use sr_server.Game.EventManager.{posted}

abbrev pub games : Text
games = codes "game:"

abbrev pub players_in : Text
players_in = codes "players:"

-- Info
pub record Info : Type 0 where
  pub id : Text
  pub players : List (Text × Player.Info)

abbrev pub none_of {ℓ} : {A : Type ℓ} → List A → Bool
none_of [] = true
none_of (_ ∷ _) = false

abbrev pub is_absent : Option Player.Info → Bool
is_absent none = true
is_absent (some _) = false

abbrev pub is_aborted : Fault → Bool
is_aborted transaction_aborted = true
is_aborted _ = false

abbrev pub Maps : Type 0
Maps = List Text × List Hash

-- The players that the hashes hold, each with the ID of the same place.
unfoldable pub scan_players : {S : Type 0} → List Text → List Hash → Exec S Fault (List Player)
unfolding scan
scan_players ids [] = pure []
scan_players [] (h ∷ hs) = raise panicked
scan_players (id ∷ ids) (h ∷ hs) = do
  player ← scan id h
  refuse_if (is_blank player.username) rejected
  rest ← scan_players ids hs
  pure (player ∷ rest)

-- the map that GetInfo fills
unfoldable pub info_map : List Player → List (Text × Player.Info) → List (Text × Player.Info)
unfolding put_key info
info_map [] m = m
info_map (p ∷ ps) m = info_map ps (put_key p.id (info p) m)

module _ (r : Redis) where
  -- Exists
  unfoldable pub game_exists : Text → Exec r.Db Fault Bool
  game_exists game_id = do
    n ← redis (r.call (exists (channel games game_id)))
    pure (not (eq_ℤ n (pos 0)))

  unfoldable pub ask_all : List Text → Exec r.Db Fault (Unit {0})
  ask_all [] = pure tt
  ask_all (id ∷ ids) = redis (r.send_hgetall (channel (codes "player:") id)) >> ask_all ids

  -- a game with no members: UNWATCH and report it
  unfoldable pub missing : Exec r.Db Fault Maps
  missing = redis r.unwatch >> raise game_not_found

  unfoldable pub ask_players : List Text → Exec r.Db Fault Maps
  unfolding ask_all
  ask_players ids = do
    redis r.multi
    ask_all ids
    maps ← redis r.exec_hashes
    refuse_if (none_of maps) transaction_aborted
    refuse_if (ltb (length maps) (length ids)) rejected
    pure (ids, maps)

  -- getPlayerMaps
  unfoldable pub get_player_maps : Text → Exec r.Db Fault Maps
  unfolding missing ask_players
  get_player_maps game_id = do
    redis (r.watch (channel players_in game_id))
    ids ← redis (r.smembers (channel players_in game_id))
    if none_of ids then missing else ask_players ids

  unfoldable pub after_attempts : Option Fault → Exec r.Db Fault Maps
  after_attempts none = pure ([], [])
  after_attempts (some e) = raise e

  -- the loop over the attempts, with the error of the last one
  unfoldable pub attempt : ℕ → Option Fault → Text → Exec r.Db Fault Maps
  unfolding after_attempts
  attempt zero last game_id d = after_attempts last d
  attempt (suc n) last game_id d =
      let (res, t) = get_player_maps game_id d in
      elim res [
        | ok maps ↦ (ok maps, t)
        | err e ↦
            let again = attempt n (some e) game_id t in if is_aborted e then again else (err e, t)
      ]

  -- GetPlayersIn, with config.RedisRetries
  unfoldable pub get_players_in : ℕ → Text → Exec r.Db Fault (List Player)
  unfolding attempt scan_players
  get_players_in retries game_id = do
    maps ← attempt retries none game_id
    scan_players maps.0 maps.1

  -- GetInfo
  unfoldable pub get_info : ℕ → Text → Exec r.Db Fault Info
  unfolding get_players_in info_map
  get_info retries game_id = do
    players ← get_players_in retries game_id
    pure (record { id = game_id; players = info_map players [] })

  -- AddPlayer
  unfoldable pub add_player : Text → Player → Exec r.Db Fault (Unit {0})
  add_player game_id player = do
    results ← redis (
        transaction r (
          sadd (channel players_in game_id) player.id
          ∷ publish (channel updates game_id) (player_update_json (player_add player))
          ∷ []))
    expect (posted results)

  -- the update of UpdatePlayerConnections
  unfoldable pub connection_update : Text → ℤ → ℤ → Option PlayerUpdate
  connection_update player_id new_conns amount =
      if eq_ℤ new_conns (pos 0) && eq_ℤ amount (negsuc 0)
      then some (player_online player_id false)
      else if eq_ℤ new_conns (pos 1) && eq_ℤ amount (pos 1)
      then some (player_online player_id true)
      else none

  unfoldable pub announce : Text → Option PlayerUpdate → Exec r.Db Fault (Unit {0})
  announce game_id none = pure tt
  announce game_id (some ud) = do
    redis (r.call (publish (channel updates game_id) (player_update_json ud)))
    pure tt

  -- UpdatePlayerConnections
  unfoldable pub update_player_connections : Text → Text → ℤ → Exec r.Db Fault ℤ
  unfolding modify_connections connection_update announce
  update_player_connections game_id player_id amount = do
    new_conns ← redis (modify_connections r player_id amount)
    announce game_id (connection_update player_id new_conns amount)
    pure new_conns

  internal_commands : PlayerUpdate → Exec r.Db Fault (List Command)
  internal_commands u =
      if is_empty u
      then pure []
      else (do command ← or_panic (make_redis_command u); pure (command ∷ []))

  external_commands : Text → PlayerUpdate → List Command
  external_commands game_id u =
      if is_empty u then [] else publish (channel updates game_id) (player_update_json u) ∷ []

  -- UpdatePlayer; a panic of MakeRedisCommand comes before EXEC, so then nothing is done
  unfoldable pub update_player : Text → PlayerUpdate → PlayerUpdate → Exec r.Db Fault (Unit {0})
  unfolding internal_commands external_commands
  update_player game_id external internal = do
    refuse_if (is_empty internal && is_empty external) rejected
    commands ← internal_commands internal
    redis (transaction r (commands ++ external_commands game_id external))
    pure tt
