-- ===== src/Routes/LoggedIn.antt =====
-- Who is let in by a login, and the session that is made.
use sr_server.Prelude.{◌≡◌, Bool, true, some, List, [], ◌∷◌, any, find, Text, codes, text_eq, ok}
use sr_server.Json.{Fields, get_field, read_text, read_bool}
use sr_server.Redis.{Redis, text}
use sr_server.Redis.Documented.{View, Documented}
use sr_server.Player.{Player}
use sr_server.Player.Stored.{player_ids}
use sr_server.Session.{Session, Ttls}
use sr_server.Session
use sr_server.Session.Laws.{made, IsHeld}
use sr_server.Game.Channels.{channel}
use sr_server.Game.Players.{Info, players_in}
use sr_server.Routes.{Answer, Request, read_body_json}
use sr_server.Routes.Ensures.{Ensures}
use sr_server.Routes.Accounts.{login_response}

abbrev login_names : List Text
login_names = codes "gameID" ∷ codes "username" ∷ codes "persist" ∷ []

-- The request asks for a game, a player and a kind of session.
abbrev AsksLogin : Request → Text → Text → Bool → Type 0
AsksLogin request game_id username persists =
    (fs : Fields) × (read_body_json login_names request ≡ ok fs)
    × (read_text (get_field (codes "gameID") fs) ≡ ok game_id)
    × (read_text (get_field (codes "username") fs) ≡ ok username)
    × (read_bool (get_field (codes "persist") fs) ≡ ok persists)

-- The player has the username and is in the game's set of players.
abbrev PlaysIn : View → Text → Text → Player → Type 0
PlaysIn v game_id username plr =
    (find username (v.hashes player_ids) ≡ some (text plr.id))
    × (any (text_eq plr.id) (v.sets (channel players_in game_id)) ≡ true)

module _ (r : Redis) (doc : Documented r) where
  open doc use {view}

  -- What a login that succeeds comes with and does.
  unfoldable pub LoggedIn : Ttls → Text → Request → r.Db → Answer → r.Db → Type 0
  LoggedIn c session_id request d a d' =
      (game_id : Text) × (username : Text) × (persists : Bool) × (plr : Player) × (found : Info)
      × AsksLogin request game_id username persists
      × (found.id ≡ game_id)
      × PlaysIn (view d) game_id username plr
      × IsHeld c (made session_id game_id plr persists) (view d')
      × (a ≡ login_response plr found session_id)
