-- ===== src/Routes/Tasks.antt =====
-- routes/task.go: the administrative requests. `form` is request.FormValue, `query` the value of
-- gameID in the URL.
mod Tests
pub mod Effects
pub mod Games
pub mod Players
use sr_server.Prelude.{
  ℕ, Bool, true, false, not, ◌||◌, Option, none, some, List, [], ◌∷◌, ◌++◌, map, drop, length, ◌==◌,
  Text, codes, text_eq, ℤ, pos, eq_ℤ, Exec, Result, ok, err, pure, raise, if◌then◌else◌, ◌>>=◌,
  ◌>>◌,
}
use sr_server.Fault.{Fault, player_not_found, redis, panicked}
use sr_server.Redis.{Redis, Command, del, expire, hset, num}
use sr_server.Redis.Transaction.{transaction}
use sr_server.Player.{Player, online_mode_auto}
use sr_server.Player.Stored.{is_blank, get_by_username, create}
use sr_server.Id.{timestamp_now}
use sr_server.Session
use sr_server.Game.Channels.{channel}
use sr_server.Game.Players.{games, game_exists, add_player}
use sr_server.Routes.{
  Stop, aborted, crashed, Answer, empty, Request, stop_if, http_internal_error_if, http_bad_request,
  request_session,
}

abbrev pub Form : Type 0
Form = Text → Text

-- httpInternalError
abbrev pub http_internal_error : {S : Type 0} → Bool → Exec S Stop (Unit {0})
http_internal_error test = stop_if test (aborted 500)

-- The result of a call as a value.
abbrev pub attempted : {S A : Type 0} → Exec S Fault A → Exec S Stop (Result Fault A)
attempted m d = (ok (m d).0, (m d).1)

-- the bool that game.Exists returns, false with an error
abbrev pub said : Result Fault Bool → Bool
said (ok b) = b
said (err _) = false

-- an error of game.Exists, where the handler looks at it
abbrev pub checked : {S : Type 0} → Result Fault Bool → Exec S Stop (Unit {0})
checked (ok b) = pure tt
checked (err panicked) = raise crashed
checked (err _) = raise (aborted 500)

-- the player of a username
abbrev pub named : {S : Type 0} → Result Fault Player → Exec S Stop Player
named (ok plr) = pure plr
named (err player_not_found) = raise (aborted 400)
named (err panicked) = raise crashed
named (err _) = raise (aborted 500)

abbrev pub session_prefix : Text
session_prefix = codes "session:"

module _ (r : Redis) where
  -- a command for each session, in one block
  unfoldable pub on_all_sessions : (Text → Command) → Exec r.Db Stop Answer
  on_all_sessions command = do
    key_names ← http_internal_error_if (redis (r.keys session_prefix))
    results ← http_internal_error_if (redis (transaction r (map command key_names)))
    http_internal_error (not (length results == length key_names))
    pure empty

  -- handleClearSessions
  unfoldable pub handle_clear_sessions : Exec r.Db Stop Answer
  unfolding on_all_sessions
  handle_clear_sessions = on_all_sessions del

  -- handleTimeoutAllSessions, with what time.ParseDuration gives, in seconds
  unfoldable pub handle_timeout_all_sessions : (Text → Option ℤ) → Form → Exec r.Db Stop Answer
  unfolding on_all_sessions
  handle_timeout_all_sessions parse_duration form =
      http_bad_request (is_blank (form (codes "dur")))
      >> (elim (parse_duration (form (codes "dur"))) [
        | none ↦ raise (aborted 400)
        | some secs ↦ on_all_sessions (λ key. expire key secs)
      ])

  -- the HSET of handleCreateGame
  unfoldable pub store_game : ℕ → Text → Exec r.Db Stop Answer
  store_game now game_id = do
    set ← http_internal_error_if (
        redis (
          r.call (
            hset (channel games game_id)
              ((codes "created_at", num (pos (timestamp_now now))) ∷ []))))
    http_internal_error (not (eq_ℤ set (pos 1)))
    pure empty

  -- handleCreateGame; an error of game.Exists comes with false and is not looked at
  unfoldable pub handle_create_game : ℕ → Form → Exec r.Db Stop Answer
  unfolding store_game
  handle_create_game now form = do
    http_bad_request (is_blank (form (codes "gameID")))
    exists ← attempted (game_exists r (form (codes "gameID")))
    http_bad_request (said exists)
    store_game now (form (codes "gameID"))

  -- handleDeleteGame, which no route serves
  unfoldable pub handle_delete_game : Form → Exec r.Db Stop Answer
  handle_delete_game form = do
    http_bad_request (is_blank (form (codes "gameID")))
    exists ← attempted (game_exists r (form (codes "gameID")))
    if said exists then pure tt else checked exists
    http_bad_request (not (said exists))
    set ← http_internal_error_if (redis (r.call (del (channel games (form (codes "gameID"))))))
    http_internal_error (not (eq_ℤ set (pos 1)))
    pure empty

  -- handleCreatePlayer, with the ID and the hue that it draws
  unfoldable pub handle_create_player : Text → ℤ → Form → Exec r.Db Stop Answer
  handle_create_player player_id hue form = do
    http_bad_request (is_blank (form (codes "uname")))
    http_bad_request (is_blank (form (codes "name")))
    http_internal_error_if (
        create r (record {
          id = player_id;
          name = form (codes "name");
          hue = hue;
          username = form (codes "uname");
          connections = pos 0;
          online_mode = pos 0;
        }))
    pure empty

  unfoldable pub player_named : Text → Exec r.Db Stop Player
  player_named username d = named (get_by_username r username d).0 (get_by_username r username d).1

  -- handleAddToGame
  unfoldable pub handle_add_to_game : Form → Exec r.Db Stop Answer
  unfolding player_named
  handle_add_to_game form = do
    http_bad_request (is_blank (form (codes "uname")))
    http_bad_request (is_blank (form (codes "game")))
    plr ← player_named (form (codes "uname"))
    http_internal_error_if (add_player r (form (codes "game")) plr)
    pure empty

  read_sessions : List Text → Exec r.Db Stop (Unit {0})
  read_sessions [] = pure tt
  read_sessions (key ∷ keys) =
      http_internal_error_if (Session.get_by_id r (drop 8 key)) >> read_sessions keys

  -- handleTrimPlayers, which reads each session inside of a MULTI and trims nothing
  unfoldable pub handle_trim_players : Text → Request → Exec r.Db Stop Answer
  unfolding read_sessions
  handle_trim_players query request = do
    request_session r request
    http_bad_request (is_blank query)
    exists ← http_internal_error_if (game_exists r query)
    http_bad_request (not exists)
    session_keys ← http_internal_error_if (redis (r.keys session_prefix))
    http_internal_error (length session_keys == 0)
    http_internal_error_if (redis r.multi)
    read_sessions session_keys
    pure empty

-- What a request to a task comes with, and what its handler draws.
pub record TaskRequest : Type 0 where
  pub form : Form
  pub query : Text
  pub request : Request
  pub now : ℕ
  pub player_id : Text
  pub hue : ℤ
  pub parse_duration : Text → Option ℤ

-- tasksRouter: the handler of a path
unfoldable pub task_handler : (r : Redis) → Text → TaskRequest → Option (Exec r.Db Stop Answer)
unfolding handle_clear_sessions handle_timeout_all_sessions handle_create_game handle_create_player
    handle_add_to_game handle_trim_players
task_handler r path q =
    if text_eq path (codes "/clear-all-sessions")
    then some (handle_clear_sessions r)
    else if text_eq path (codes "/timeout-all-sessions")
    then some (handle_timeout_all_sessions r q.parse_duration q.form)
    else if text_eq path (codes "/create-game") || text_eq path (codes "/delete-game")
    then some (handle_create_game r q.now q.form)
    else if text_eq path (codes "/create-player")
    then some (handle_create_player r q.player_id q.hue q.form)
    else if text_eq path (codes "/add-to-game")
    then some (handle_add_to_game r q.form)
    else if text_eq path (codes "/trim-players")
    then some (handle_trim_players r q.query q.request)
    else none
