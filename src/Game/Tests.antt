-- ===== src/Game/Tests.antt =====
-- The event manager and the channels on a game served from memory.
use native.Mathlib.Decide.{ℕ_discrete}
use sr_server.Game.Players.{update_player_connections}
use sr_server.Game.Players.Connections.{Announced, update_player_connections-ok}
use sr_server.Prelude.{
  ◌+ℤ◌, ◌≡◌, ◌≢◌, ◌⊎◌, refl, Bool, false, some, [], ◌∷◌, any, length, Text, codes, text_eq, pos,
  Result, ok, err, arith,
}
use sr_server.Json.{Json, json_eq}
use sr_server.Fault.{Fault, unexpected_reply}
use sr_server.Redis.Documented.{put_field, View, run, apply}
use sr_server.Redis.Memory.{Store, memory, memory-Documented}
use sr_server.Redis.Transaction.{transaction}
use sr_server.Samples.{player, event, store}
use sr_server.Event.{Event, core_of, with_core, set_share, get_share}
use sr_server.Event.Codec.{marshal}
use sr_server.Update.{EventUpdate, event_update_json, for_event_delete, event_diff}
use sr_server.Game.Channels.{
  channel, private_channel, shared_channel, event_channel, update_channel, history, subscriptions,
  player_can_see_event,
}
use sr_server.Game.Channels.Privacy.{subscriptions-visible}
use sr_server.Game.EventManager.{post_event, delete_event, update_event, update_event_share}
use sr_server.Game.EventManager.Posting.{added, has_text, post_event-ok}
use sr_server.Game.EventManager.Deleting.{
  of_id, removed, deletion, delete_event-ok, delete_event_shared_id,
}
use sr_server.Game.EventManager.Updating.{swapped, update_event-ok, update_event_share-ok}

abbrev game : Text
game = codes "g"

abbrev precedes : Json → Json → Bool
precedes = memory-Documented.precedes

abbrev view : Store → View
view = memory-Documented.view

-- A second event, of a later millisecond.
abbrev later : Event
later = let c = core_of event in with_core event (record c { id = pos 9 })

abbrev posted_store : Store
posted_store = (post_event memory game later store).1

posts : post_event memory game later store ≡ (ok tt, posted_store)
unfolding post_event text_eq event_channel shared_channel channel transaction run apply marshal
    json_eq ℕ_discrete
posts = refl

post_event-ok_example :
    (c : Text) × (event_channel game later ≡ some c)
    × (has_text (marshal later) ((view store).zsets (channel history game)) ≡ false)
    × ((view posted_store).zsets ≡ added precedes game later (view store))
    × ((view posted_store).published ≡ (c, marshal later) ∷ (view store).published)
post_event-ok_example = post_event-ok memory memory-Documented game later store posted_store posts

abbrev deleted_store : Store
deleted_store = (delete_event memory game event store).1

deletes : delete_event memory game event store ≡ (ok tt, deleted_store)
unfolding delete_event text_eq update_channel shared_channel channel transaction run apply marshal
    event_update_json for_event_delete
deletes = refl

delete_event-ok_example :
    (c : Text) × (update_channel game event ≡ some c)
    × (length (of_id game (pos 5) (view store)) ≡ 1)
    × ((view deleted_store).zsets ≡ removed game (pos 5) (view store))
    × ((view deleted_store).published ≡ (c, deletion event) ∷ (view store).published)
delete_event-ok_example =
    delete_event-ok memory memory-Documented game event store deleted_store deletes

-- A change of the event, with the update that is sent.
abbrev changed : Event
changed = let c = core_of event in with_core event (record c { edit = pos 8 })

abbrev diff : EventUpdate
diff = event_diff (pos 5) (pos 8) []

abbrev updated_store : Store
updated_store = (update_event memory game changed diff store).1

updates_event : update_event memory game changed diff store ≡ (ok tt, updated_store)
unfolding update_event text_eq update_channel shared_channel channel transaction run apply marshal
    json_eq ℕ_discrete event_update_json
updates_event = refl

update_event-ok_example :
    (c : Text) × (update_channel game changed ≡ some c)
    × (length (of_id game (pos 5) (view store)) ≡ 1)
    × ((view updated_store).zsets ≡ swapped precedes game changed (view store))
    × ((view updated_store).published ≡ (c, event_update_json diff) ∷ (view store).published)
update_event-ok_example =
    update_event-ok memory memory-Documented game changed store updated_store diff updates_event

abbrev shared_store : Store
shared_store = (update_event_share memory game event (pos 1) store).1

shares : update_event_share memory game event (pos 1) store ≡ (ok tt, shared_store)
unfolding update_event_share delete_event post_event text_eq event_channel update_channel
    shared_channel channel private_channel transaction run apply marshal json_eq ℕ_discrete
    event_update_json for_event_delete
shares = refl

update_event_share-ok_example :
    (c c' : Text) × (get_share event ≢ pos 1)
    × (update_channel game event ≡ some c)
    × (event_channel game (set_share event (pos 1)) ≡ some c')
    × (length (of_id game (pos 5) (view store)) ≡ 1)
    × ((view shared_store).zsets ≡ swapped precedes game (set_share event (pos 1)) (view store))
    × ((view shared_store).published
        ≡ (c', marshal (set_share event (pos 1))) ∷ (c, deletion event) ∷ (view store).published)
update_event_share-ok_example =
    update_event_share-ok memory memory-Documented game event store shared_store (pos 1) shares

-- Two events of one millisecond.
abbrev twin : Event
twin = let c = core_of event in with_core event (record c { player_id = codes "p2" })

abbrev crowded : Store
crowded = (post_event memory game twin store).1

abbrev after_crowded : Store
after_crowded = (delete_event memory game event crowded).1

two_there : length (of_id game (pos 5) (view crowded)) ≡ 2
unfolding memory-Documented post_event text_eq event_channel shared_channel channel transaction run
    apply marshal json_eq ℕ_discrete
two_there = refl

fails : delete_event memory game event crowded ≡ (err unexpected_reply, after_crowded)
unfolding delete_event post_event text_eq update_channel event_channel shared_channel channel
    transaction run apply marshal json_eq ℕ_discrete event_update_json for_event_delete
fails = refl

delete_event_shared_id_example :
    (◌≢◌ {A = Result Fault (Unit {0})} (err unexpected_reply) (ok tt))
    × (((view after_crowded).zsets ≡ (view crowded).zsets)
        ⊎ (of_id game (pos 5) (view after_crowded) ≡ []))
delete_event_shared_id_example =
    delete_event_shared_id memory memory-Documented game event crowded after_crowded
      (err unexpected_reply) (omega (arith, two_there)) fails

subscriptions-visible_example :
    (any (text_eq (codes "history:g")) (subscriptions game (codes "p1"))
      ≡ player_can_see_event player event)
    × (any (text_eq (codes "update:g")) (subscriptions game (codes "p1"))
        ≡ player_can_see_event player event)
unfolding event_channel update_channel shared_channel channel
subscriptions-visible_example =
    subscriptions-visible game player event (codes "history:g") (codes "update:g") refl refl

-- The player of the sample store, which has no count yet, connects.
abbrev connected : Store
connected = (update_player_connections memory game (codes "p1") (pos 1) store).1

connects :
    update_player_connections memory game (codes "p1") (pos 1) store ≡ (ok (pos 1), connected)
unfolding update_player_connections apply text_eq put_field ◌+ℤ◌
connects = refl

update_player_connections-ok_example :
    Announced game (codes "p1") (pos 1) (view store) (pos 1) (view connected)
update_player_connections-ok_example =
    update_player_connections-ok memory memory-Documented game (codes "p1") (pos 1) (pos 1) store
      connected connects
