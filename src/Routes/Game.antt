-- ===== src/Routes/Game.antt =====
-- gameRouter of routes/: which handler serves a request to change the events of a game, under
-- recoveryMiddleware.
pub mod Refused
pub mod Owned
pub mod Edited
pub mod Shared
pub mod Posted
use sr_server.Prelude.{ℕ, List, ℤ, Exec}
use sr_server.Redis.{Redis}
use sr_server.Update.{Diff}
use sr_server.Routes.{Stop, Answer, Request, Response, recovery}
use sr_server.Routes.Rolls.{handle_roll, handle_reroll, handle_roll_initiative}
use sr_server.Routes.Edits.{
  handle_delete_event, handle_update_event, handle_share_event, handle_edit_initiative,
}

-- The paths of gameRouter whose method is POST: /roll, /reroll, /roll-initiative, /modify-roll,
-- /delete-roll, /edit-share and /edit-initiative.
pub data Endpoint : Type 0 where
  to_roll to_reroll to_roll_initiative to_modify_roll to_delete_roll to_edit_share : Endpoint
  to_edit_initiative : Endpoint

-- What a request finds around it: config.MaxSingleRoll, the clock, the rolls that the dice channel
-- gives, and the order in which Go ranges over the map of a diff.
pub record Surroundings : Type 0 where
  pub max_single_roll : ℤ
  pub now : ℕ
  pub chan : List ℕ
  pub range : Diff → Diff

module _ (r : Redis) where
  unfoldable pub handler : Endpoint → Surroundings → Request → Exec r.Db Stop Answer
  handler to_roll w = handle_roll r w.max_single_roll w.now w.chan
  handler to_reroll w = handle_reroll r w.now w.chan
  handler to_roll_initiative w = handle_roll_initiative r w.now w.chan
  handler to_modify_roll w = handle_update_event r w.range w.now
  handler to_delete_roll w = handle_delete_event r
  handler to_edit_share w = handle_share_event r
  handler to_edit_initiative w = handle_edit_initiative r w.range w.now

  unfoldable pub serve : Endpoint → Surroundings → Request → r.Db → Response × r.Db
  serve path w request = recovery (handler path w request)
