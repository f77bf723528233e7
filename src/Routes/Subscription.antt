-- ===== src/Routes/Subscription.antt =====
-- routes/gameSubscription.go: handleSubscription around its loop, with its deferred calls in the
-- order in which Go runs them. The loop writes to the stream only (Game/Subscribe); here it is an
-- action, as other clients go on while it runs.
mod Tests
pub mod Balance
use sr_server.Prelude.{Bool, not, Text, pos, negsuc, Exec, Result, ok, err, ◌>>=◌, ◌>>◌}
use sr_server.Fault.{Fault, panicked}
use sr_server.Redis.{Redis}
use sr_server.Session.{Session, Ttls, expire_session, unexpire}
use sr_server.Game.Players.{update_player_connections}
use sr_server.Routes.{
  Stop, aborted, crashed, Answer, Request, stop_if, http_internal_error_if, request_param_session,
}

-- The cleanup runs however the body ends, and its error is only logged; its panic takes the place
-- of the body's end.
ended : {A B : Type 0} → Result Stop A → Result Fault B → Result Stop A
ended res (err panicked) = err crashed
ended res _ = res

unfoldable pub deferring : {S A B : Type 0} → Exec S Fault B → Exec S Stop A → Exec S Stop A
unfolding ended
deferring cleanup body d = (ended (body d).0 (cleanup (body d).1).0, (cleanup (body d).1).1)

module _ (r : Redis) (c : Ttls) where
  -- the player counts as connected while the loop runs
  unfoldable pub connected : Session → Exec r.Db Stop Answer → Exec r.Db Stop Answer
  unfolding deferring
  connected sess loop = do
    http_internal_error_if (update_player_connections r sess.game_id sess.player_id (pos 1))
    deferring (update_player_connections r sess.game_id sess.player_id (negsuc 0)) loop

  -- handleSubscription, with whether the upgrade to a stream and Subscribe have succeeded
  unfoldable pub handle_subscription :
      Bool → Bool → Request → Exec r.Db Stop Answer → Exec r.Db Stop Answer
  unfolding connected deferring
  handle_subscription upgraded subscribed request loop = do
    sess ← request_param_session r request
    stop_if (not upgraded) (aborted 400)
    stop_if (not subscribed) (aborted 500)
    http_internal_error_if (unexpire r sess)
    deferring (expire_session r c sess) (connected sess loop)
