-- ===== src/Game/EventManager.antt =====
-- game/eventManager.go: events are posted, deleted, shared anew and updated, each in one MULTI.
pub mod Effects
pub mod Posting
pub mod Deleting
pub mod Updating
use sr_server.Prelude.{
  ◌&&◌, Bool, true, false, List, [], ◌∷◌, ◌++◌, Text, ℤ, pos, eq_ℤ, Exec, ◌>>=◌, ◌>>◌,
}
use sr_server.Fault.{Fault, rejected, redis, or_panic, expect, refuse_if}
use sr_server.Redis.{Redis, zadd_nx, zremrangebyscore, publish}
use sr_server.Redis.Transaction.{transaction}
use sr_server.Event.{Event, get_id, get_share, set_share}
use sr_server.Event.Codec.{marshal}
use sr_server.Update.{EventUpdate, event_update_json, for_event_delete}
use sr_server.Game.Channels.{channel, history, event_channel, update_channel}

-- the replies that each function expects of its EXEC
abbrev pub posted : List ℤ → Bool
posted (added ∷ _ ∷ []) = eq_ℤ added (pos 1)
posted _ = false

abbrev pub replaced : List ℤ → Bool
replaced (deleted ∷ added ∷ _ ∷ []) = eq_ℤ deleted (pos 1) && eq_ℤ added (pos 1)
replaced _ = false

module _ (r : Redis) where
  -- PostEvent
  unfoldable pub post_event : Text → Event → Exec r.Db Fault (Unit {0})
  post_event game_id evt = do
    name ← or_panic (event_channel game_id evt)
    results ← redis (
        transaction r (
          zadd_nx (channel history game_id) (get_id evt) (marshal evt)
          ∷ publish name (marshal evt)
          ∷ []))
    expect (posted results)

  -- DeleteEvent
  unfoldable pub delete_event : Text → Event → Exec r.Db Fault (Unit {0})
  delete_event game_id evt = do
    name ← or_panic (update_channel game_id evt)
    results ← redis (
        transaction r (
          zremrangebyscore (channel history game_id) (get_id evt) (get_id evt)
          ∷ publish name (event_update_json (for_event_delete (get_id evt)))
          ∷ []))
    expect (posted results)

  -- UpdateEventShare
  unfoldable pub update_event_share : Text → Event → ℤ → Exec r.Db Fault (Unit {0})
  update_event_share game_id evt new_share = do
    refuse_if (eq_ℤ (get_share evt) new_share) rejected
    delete_event game_id evt
    post_event game_id (set_share evt new_share)

  -- UpdateEvent
  unfoldable pub update_event : Text → Event → EventUpdate → Exec r.Db Fault (Unit {0})
  update_event game_id new_event update = do
    name ← or_panic (update_channel game_id new_event)
    results ← redis (
        transaction r (
          zremrangebyscore (channel history game_id) (get_id new_event) (get_id new_event)
          ∷ zadd_nx (channel history game_id) (get_id new_event) (marshal new_event)
          ∷ publish name (event_update_json update)
          ∷ []))
    expect (replaced results)
