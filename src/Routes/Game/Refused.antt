-- ===== src/Routes/Game/Refused.antt =====
-- A request that is answered with a status of 400 to 499 changes nothing.
use sr_server.Prelude.{ℕ, ◌≡◌, ◌≤◌, ◌<◌, arith}
use sr_server.Redis.{Redis}
use sr_server.Redis.Documented.{Documented}
use sr_server.Routes.{Answer, Request, response}
use sr_server.Routes.Quiet.{Quiet, aborted_of}
use sr_server.Routes.Refusals.{
  Quiet-handle_roll, Quiet-handle_reroll, Quiet-handle_roll_initiative, Quiet-handle_update_event,
  Quiet-handle_delete_event, Quiet-handle_share_event, Quiet-handle_edit_initiative,
}
use sr_server.Routes.Game.{
  Endpoint, to_roll, to_reroll, to_roll_initiative, to_modify_roll, to_delete_roll, to_edit_share,
  to_edit_initiative, Surroundings, handler, serve,
}

module _ (r : Redis) (doc : Documented r) (w : Surroundings) (request : Request) where
  Quiet-handler : (path : Endpoint) → Quiet r doc (handler r path w request)
  unfolding handler
  Quiet-handler to_roll = Quiet-handle_roll r doc request _ _ _
  Quiet-handler to_reroll = Quiet-handle_reroll r doc request _ _
  Quiet-handler to_roll_initiative = Quiet-handle_roll_initiative r doc request _ _
  Quiet-handler to_modify_roll = Quiet-handle_update_event r doc request _ _
  Quiet-handler to_delete_roll = Quiet-handle_delete_event r doc request
  Quiet-handler to_edit_share = Quiet-handle_share_event r doc request
  Quiet-handler to_edit_initiative = Quiet-handle_edit_initiative r doc request _ _

  -- A POST request to gameRouter that is answered with a status of 400 to 499 has changed no data:
  -- none of the hashes, sets, counters, histories and published messages that redis holds.
  pub serve-refused :
      (path : Endpoint) (d d' : r.Db) (n : ℕ) (a : Answer)
      → 400 ≤ n
      → n < 500
      → serve r path w request d ≡ (response n a, d')
      → doc.view d' ≡ doc.view d
  unfolding serve Quiet
  serve-refused path d d' n a low high h =
      Quiet-handler path d d' n (omega arith) (aborted_of _ d d' n a low high h)
