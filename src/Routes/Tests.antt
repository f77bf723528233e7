-- ===== src/Routes/Tests.antt =====
-- The handlers on a game of two players, served from memory.
use sr_server.Routes.Profile.{handle_update_player}
use sr_server.Routes.Limits.{rate_limit_key, rate_limited}
use sr_server.Routes.Limits.Counted.{Ends, rate_limited_lem}
use sr_server.Routes.Profile.Refused.{handle_update_player-refused}
use sr_server.Prelude.{
  ℕ, ◌≡◌, refl, some, List, [], ◌∷◌, codes, text_eq, has_prefix, ltb_ℤ, pos, ok, pure, arith,
  if◌then◌else◌,
}
use native.Mathlib.Decide.{ℕ_discrete}
use sr_server.Json.{Json, json_eq, int, str, obj, end, field, read_items}
use sr_server.Id.{new_event_id, timestamp_now}
use sr_server.Redis.Memory.{Store, memory, memory-Documented}
use sr_server.Player.Stored
use sr_server.Samples.{event, store}
use sr_server.Session.{Session, get_player}
use sr_server.Session
use sr_server.Event.{for_roll, with_core, core_of}
use sr_server.Event.Codec.{marshal}
use sr_server.Event.Codec.{parse}
use sr_server.Event.Events.{get_by_id}
use sr_server.Redis.Documented.{count_at, members_between, run, apply}
use sr_server.Redis.Transaction.{transaction}
use sr_server.Game.Channels.{
  channel, private_channel, event_channel, shared_channel, update_channel,
}
use sr_server.Game.EventManager.{delete_event, post_event, update_event}
use sr_server.Update.{Diff, put_key, event_update_json, for_event_delete, for_event_diff}
use sr_server.Routes.{
  Request, empty, response, request_session, session_from_header, stop_if, http_do_error_if,
  read_or, read_body_json, received, recovery,
}
use sr_server.Routes.Rolls.{handle_roll, rolled, read_roll_request}
use sr_server.Routes.Edits.{
  handle_delete_event, update_fields, handle_update_event, handle_share_event,
}
use sr_server.Routes.Game.{Surroundings, serve, handler, to_delete_roll}
use sr_server.Routes.Game.Edited.{Modified, handle_update_event-ok}
use sr_server.Routes.Game.Posted.{RollPosted, handle_roll-ok}
use sr_server.Routes.Game.Refused.{serve-refused}
use sr_server.Dice.{fill_rolls}
use sr_server.Event.Share.{is_share}

abbrev asking : Json → Request
asking body = record { authentication = codes "Bearer s1"; session_param = []; body = some body }

abbrev deletion : Request
deletion = asking (obj (field (codes "id") (int (pos 5)) end))

abbrev after_deletion : Store
after_deletion = (handle_delete_event memory deletion store).1

abbrev as_given : Diff → Diff
as_given m = m

abbrev edit : Request
edit = asking (
    obj (
      field (codes "id") (int (pos 5))
        (field (codes "diff") (obj (field (codes "title") (str (codes "run")) end)) end)))

abbrev after_edit : Store
after_edit = (handle_update_event memory as_given 7_000_000 edit store).1

edits : handle_update_event memory as_given 7_000_000 edit store ≡ (ok empty, after_edit)
unfolding handle_update_event text_eq request_session session_from_header stop_if has_prefix
    http_do_error_if Session.get_by_id Session.scan read_or read_body_json get_by_id members_between
    parse update_event transaction update_channel shared_channel channel run apply marshal
    event_update_json for_event_diff update_fields put_key new_event_id timestamp_now read_items
edits = refl

handle_update_event-ok_example :
    Modified memory memory-Documented 7_000_000 edit store empty after_edit
handle_update_event-ok_example =
    handle_update_event-ok memory memory-Documented as_given 7_000_000 edit store after_edit empty
      edits

abbrev sharing : Request
sharing = asking (obj (field (codes "id") (int (pos 5)) (field (codes "share") (int (pos 1)) end)))

abbrev after_sharing : Store
after_sharing = (handle_share_event memory sharing store).1

abbrev rolling : Request
rolling = asking (obj (field (codes "count") (int (pos 3)) end))

abbrev chan : List ℕ
chan = 6 ∷ 1 ∷ 5 ∷ 2 ∷ []

abbrev after_roll : Store
after_roll = (handle_roll memory (pos 100) 9_000_000 chan rolling store).1

rolls : handle_roll memory (pos 100) 9_000_000 chan rolling store ≡ (ok empty, after_roll)
unfolding handle_roll post_event read_roll_request rolled is_share event_channel private_channel
    get_player Stored.get_by_id Stored.scan fill_rolls received text_eq request_session
    session_from_header stop_if has_prefix http_do_error_if Session.get_by_id Session.scan read_or
    read_body_json get_by_id members_between parse new_event_id timestamp_now for_roll transaction
    update_channel shared_channel channel run apply marshal event_update_json read_items json_eq
    ℕ_discrete
rolls = refl

handle_roll-ok_example :
    RollPosted memory memory-Documented (pos 100) 9_000_000 chan rolling store empty after_roll
handle_roll-ok_example =
    handle_roll-ok memory memory-Documented (pos 100) 9_000_000 chan rolling store after_roll empty
      rolls

-- A request of another player to delete the event.
abbrev foreign : Store
foreign = record store {
  view = record (store.view) {
    zsets = λ k.
        if text_eq k (codes "history:g")
        then record {
          score = pos 5;
          member = marshal (with_core event (record (core_of event) { player_id = codes "p2" }));
        }
          ∷ []
        else [];
  };
}

abbrev surroundings : Surroundings
surroundings = record { max_single_roll = pos 100; now = 0; chan = []; range = as_given }

abbrev after_refusal : Store
after_refusal = (serve memory to_delete_roll surroundings deletion foreign).1

refuses :
    serve memory to_delete_roll surroundings deletion foreign ≡ (response 403 empty, after_refusal)
unfolding serve handler recovery handle_delete_event text_eq request_session session_from_header
    stop_if has_prefix http_do_error_if Session.get_by_id Session.scan read_or read_body_json
    get_by_id members_between parse delete_event transaction update_channel shared_channel channel
    run apply marshal event_update_json for_event_delete read_items
refuses = refl

serve-refused_example : memory-Documented.view after_refusal ≡ memory-Documented.view foreign
serve-refused_example =
    serve-refused memory memory-Documented surroundings deletion to_delete_roll foreign
      after_refusal 403 empty (omega arith) (omega arith) refuses

abbrev too_blue : Request
too_blue = asking (obj (field (codes "diff") (obj (field (codes "hue") (int (pos 361)) end)) end))

abbrev after_hue : Store
after_hue = (recovery (handle_update_player memory as_given too_blue) store).1

refuses_hue :
    recovery (handle_update_player memory as_given too_blue) store ≡ (response 400 empty, after_hue)
unfolding recovery handle_update_player text_eq request_session session_from_header stop_if
    has_prefix http_do_error_if Session.get_by_id Session.scan read_or read_body_json put_key
refuses_hue = refl

handle_update_player-refused_example :
    memory-Documented.view after_hue ≡ memory-Documented.view store
handle_update_player-refused_example =
    handle_update_player-refused memory memory-Documented as_given too_blue store after_hue 400
      empty (omega arith) (omega arith) refuses_hue

-- the key of ten seconds
keyed : rate_limit_key (codes "10.0.0.1") 1617 ≡ codes "ratelimit:10.0.0.1:1610"
unfolding rate_limit_key
keyed = refl

rate_limited_lem_example :
    Ends memory memory-Documented
      (ltb_ℤ
        (pos 60)
        (count_at (rate_limit_key (codes "10.0.0.1") 1617) (memory-Documented.view store)))
      (rate_limit_key (codes "10.0.0.1") 1617)
      (pure empty)
      store
      (rate_limited memory (pos 60) (codes "10.0.0.1") 1617 (pure empty) store)
rate_limited_lem_example =
    rate_limited_lem memory memory-Documented (pos 60) (codes "10.0.0.1") 1617 (pure empty) store
