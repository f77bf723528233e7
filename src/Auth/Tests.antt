-- ===== src/Auth/Tests.antt =====
-- A login to the game of the sample, by a player who is in it.
use sr_server.Session.{Ttls}
use sr_server.Session
use sr_server.Json.{obj, str, bool, end, field}
use sr_server.Routes.{Request}
use sr_server.Routes.Accounts.{handle_login}
use sr_server.Routes.LoggedIn.{LoggedIn}
use sr_server.Prelude.{false, ◌≡◌, refl, some, [], ◌∷◌, text_eq, codes, pos, ok, if◌then◌else◌}
use sr_server.Redis.{text}
use sr_server.Redis.Memory.{Store, memory}
use sr_server.Player.{Player, info}
use sr_server.Player.Stored.{scan, get_by_id, get_by_username, player_ids}
use sr_server.Samples.{hashes_of, store}
use sr_server.Update.{put_key}
use sr_server.Game.Channels.{channel}
use sr_server.Game.Players.{
  Info, scan_players, info_map, ask_all, ask_players, missing, get_player_maps, attempt,
  get_players_in, get_info,
}
use sr_server.Auth.{log_player_in}

abbrev joined : Store
joined = record store {
  view = record store.view {
    sets = λ k. if text_eq k (codes "players:g") then codes "p1" ∷ [] else [];
    hashes =
        λ k. if text_eq k player_ids then (codes "ada", text (codes "p1")) ∷ [] else hashes_of k;
  };
}

abbrev ada : Player
ada = record {
  id = codes "p1";
  name = codes "Ada";
  hue = pos 0;
  username = codes "ada";
  connections = pos 0;
  online_mode = pos 0;
}

abbrev game : Info
game = record { id = codes "g"; players = (codes "p1", info ada) ∷ [] }

abbrev after : Store
after = (log_player_in memory 2 (codes "g") (codes "ada") joined).1

logs_in : log_player_in memory 2 (codes "g") (codes "ada") joined ≡ (ok (game, ada), after)
unfolding log_player_in get_by_username get_by_id scan get_info get_players_in attempt
    get_player_maps ask_players ask_all missing scan_players info_map put_key info text_eq channel
logs_in = refl

abbrev ttls : Ttls
ttls = record { temp_secs = 900; persist_days = 30 }

abbrev request : Request
request = record {
  authentication = [];
  session_param = [];
  body = some (
      obj (
        field (codes "gameID") (str (codes "g")) (
          field (codes "username") (str (codes "ada"))
            (field (codes "persist") (bool false) end))));
}

abbrev after_login : Store
after_login = (handle_login memory ttls 2 (codes "s2") request joined).1
