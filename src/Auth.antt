-- ===== src/Auth.antt =====
-- auth/auth.go: the check of a login.
mod Tests
pub mod Members
use sr_server.Prelude.{
  ℕ, Bool, true, false, Option, none, some, find, Text, Exec, pure, ◌>>=◌, ◌>>◌,
}
use sr_server.Fault.{Fault, not_authorized, refuse_if}
use sr_server.Redis.{Redis}
use sr_server.Player.{Player}
use sr_server.Player
use sr_server.Player.Stored.{get_by_username}
use sr_server.Game.Players.{Info, is_absent, get_info}

module _ (r : Redis) where
  -- LogPlayerIn
  unfoldable pub log_player_in : ℕ → Text → Text → Exec r.Db Fault (Info × Player)
  log_player_in retries game_id username = do
    plr ← get_by_username r username
    info ← get_info r retries game_id
    refuse_if (is_absent (find plr.id info.players)) not_authorized
    pure (info, plr)
