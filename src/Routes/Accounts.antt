-- ===== src/Routes/Accounts.antt =====
-- routes/auth.go: the handlers of a login, of a login by session, and of a logout.
use sr_server.Prelude.{
  ℕ, [], ◌∷◌, if◌then◌else◌, Text, codes, Exec, Result, ok, err, pure, raise, wrap, ◌>>=◌, ◌>>◌,
}
use sr_server.Json.{str, obj, end, field, get_field, read_text, read_bool}
use sr_server.Fault.{Fault, player_not_found, game_not_found, not_authorized, panicked}
use sr_server.Redis.{Redis}
use sr_server.Player.{Player, marshal_json}
use sr_server.Player.Stored
use sr_server.Session.{Session, Ttls, remove}
use sr_server.Session
use sr_server.Auth.{log_player_in}
use sr_server.Game.Players.{Info, game_exists, get_info}
use sr_server.Routes.{
  Stop, aborted, crashed, Answer, empty, written, Request, request_session, read_body_json, read_or,
  http_unauthorized_if, http_internal_error_if,
}
use sr_server.Routes.Reads.{game_info_json}

-- loginResponse
unfoldable pub login_response : Player → Info → Text → Answer
unfolding game_info_json marshal_json
login_response player info session = written (
    obj (
      field (codes "player") (marshal_json player)
        (field (codes "game") (game_info_json info) (field (codes "session") (str session) end))))

-- the answer of handleLogin to an error of LogPlayerIn
abbrev pub login_error : Fault → Stop
login_error player_not_found = aborted 403
login_error game_not_found = aborted 403
login_error not_authorized = aborted 403
login_error panicked = crashed
login_error _ = aborted 500

module _ (r : Redis) where
  -- handleLogin, with the session ID that it draws
  unfoldable pub handle_login : Ttls → ℕ → Text → Request → Exec r.Db Stop Answer
  unfolding login_response
  handle_login c retries session_id request = do
    fs ←
        read_or 400
          (read_body_json (codes "gameID" ∷ codes "username" ∷ codes "persist" ∷ []) request)
    game_id ← read_or 400 (read_text (get_field (codes "gameID") fs))
    username ← read_or 400 (read_text (get_field (codes "username") fs))
    persists ← read_or 400 (read_bool (get_field (codes "persist") fs))
    found ← wrap login_error (log_player_in r retries game_id username)
    session ← http_internal_error_if (Session.new r c session_id game_id found.1 persists)
    pure (login_response found.1 found.0 session.id)

  -- a session whose game or player is gone: it is removed
  invalid : {A : Type 0} → Session → Exec r.Db Stop A
  invalid sess = http_internal_error_if (remove r sess) >> raise (aborted 401)

  player_or_invalid : Session → Result Fault Player → Exec r.Db Stop Player
  unfolding invalid
  player_or_invalid sess (ok plr) = pure plr
  player_or_invalid sess (err player_not_found) = invalid sess
  player_or_invalid sess (err panicked) = raise crashed
  player_or_invalid sess (err _) = raise (aborted 500)

  -- the result of a call as a value, for a handler that tells its errors apart
  attempted : {A : Type 0} → Exec r.Db Fault A → Exec r.Db Stop (Result Fault A)
  attempted m d = (ok (m d).0, (m d).1)

  -- handleReauth
  unfoldable pub handle_reauth : ℕ → Request → Exec r.Db Stop Answer
  unfolding login_response player_or_invalid invalid attempted
  handle_reauth retries request = do
    fs ← read_or 400 (read_body_json (codes "session" ∷ []) request)
    session_id ← read_or 400 (read_text (get_field (codes "session") fs))
    sess ← http_unauthorized_if (Session.get_by_id r session_id)
    exists ← http_internal_error_if (game_exists r sess.game_id)
    if exists then pure tt else invalid sess
    found ← attempted (Stored.get_by_id r sess.player_id)
    plr ← player_or_invalid sess found
    info ← http_internal_error_if (get_info r retries sess.game_id)
    pure (login_response plr info sess.id)

  -- handleLogout
  unfoldable pub handle_logout : Request → Exec r.Db Stop Answer
  handle_logout request = do
    sess ← request_session r request
    http_internal_error_if (remove r sess)
    pure empty
