-- ===== src/Routes/Tasks/Tests.antt =====
-- The administrative requests on the sample game.
use sr_server.Prelude.{
  ◌≡◌, refl, true, none, some, [], any, find, codes, text_eq, pos, Exec, ok, if◌then◌else◌,
}
use sr_server.Redis.{num, text}
use sr_server.Redis.Memory.{Store, memory, memory-Documented}
use sr_server.Redis.Documented.{apply, run, put_field, put_fields, new_fields}
use sr_server.Redis.Transaction.{transaction}
use sr_server.Samples.{store}
use sr_server.Id.{timestamp_now}
use sr_server.Player.{Player}
use sr_server.Player.Stored.{player_ids, get_by_username, create}
use sr_server.Player.Stored
use sr_server.Game.Channels.{channel}
use sr_server.Game.Players.{games, game_exists, players_in, add_player}
use sr_server.Routes.{Stop, Answer, empty, stop_if, http_do_error_if}
use sr_server.Routes.Tasks.{
  Form, TaskRequest, handle_clear_sessions, handle_create_game, handle_create_player,
  handle_add_to_game, player_named, task_handler,
}
use sr_server.Routes.Tasks.Games.{delete_game-creates}
use sr_server.Routes.Tasks.Players.{handle_add_to_game-ok}

abbrev form : Form
form k =
    if text_eq k (codes "uname")
    then codes "bo"
    else if text_eq k (codes "name")
    then codes "Bo"
    else if text_eq k (codes "game")
    then codes "g"
    else if text_eq k (codes "gameID")
    then codes "h"
    else []

abbrev task : TaskRequest
task = record {
  form = form;
  query = [];
  request = record { authentication = []; session_param = []; body = none };
  now = 5_000_000;
  player_id = codes "p2";
  hue = pos 3;
  parse_duration = λ _. none;
}

abbrev cleared : Store
cleared = (handle_clear_sessions memory store).1

abbrev deletes : Exec Store Stop Answer
deletes = handle_create_game memory 5_000_000 form

abbrev deleted : Store
deleted = (deletes store).1

serves : task_handler memory (codes "/delete-game") task ≡ some deletes
unfolding task_handler text_eq
serves = refl

runs : deletes store ≡ (ok empty, deleted)
unfolding handle_create_game stop_if http_do_error_if game_exists apply text_eq channel put_fields
    new_fields
runs = refl

delete_game-creates_example :
    find (codes "created_at") ((memory-Documented.view deleted).hashes (channel games (codes "h")))
    ≡ some (num (pos (timestamp_now 5_000_000)))
unfolding text_eq
delete_game-creates_example =
    delete_game-creates memory memory-Documented task deletes store deleted empty serves runs

abbrev created : Store
created = (handle_create_player memory (codes "p2") (pos 3) form store).1

abbrev joined : Store
joined = (handle_add_to_game memory form created).1

joins : handle_add_to_game memory form created ≡ (ok empty, joined)
unfolding handle_add_to_game player_named add_player get_by_username Stored.get_by_id Stored.scan
    handle_create_player stop_if http_do_error_if create transaction run apply text_eq put_fields
    new_fields Stored.redis_key Stored.flatten put_field channel
joins = refl

handle_add_to_game-ok_example :
    (p : Player) × (find (codes "bo") ((memory-Documented.view created).hashes player_ids)
      ≡ some (text p.id))
    × (any (text_eq p.id) ((memory-Documented.view joined).sets (channel players_in (codes "g")))
        ≡ true)
unfolding text_eq
handle_add_to_game-ok_example =
    handle_add_to_game-ok memory memory-Documented form created joined empty joins
