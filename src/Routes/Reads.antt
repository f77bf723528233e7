-- ===== src/Routes/Reads.antt =====
-- routes/game.go: the handlers that only read, /info and /events.
use sr_server.Prelude.{
  ℕ, Bool, false, none, some, List, [], ◌∷◌, ◌==◌, length, if◌then◌else◌, Text, codes, ℤ, pos, Exec,
  pure, raise, ◌>>=◌,
}
use sr_server.Json.{Json, bool, int, str, arr, obj, Items, nil, cons, Fields, end, field}
use sr_server.Redis.{Redis, Bound, at, minus_inf, plus_inf}
use sr_server.Player.{Player, info_json}
use sr_server.Player
use sr_server.Session.{get_player}
use sr_server.Event.{Event, get_id}
use sr_server.Event.Codec.{parse, marshal}
use sr_server.Event.Events.{parse_uint, get_between}
use sr_server.Game.Channels.{player_can_see_event}
use sr_server.Game.Players.{Info, get_info}
use sr_server.Routes.{
  Stop, aborted, Answer, written, Request, request_session, read_or, http_internal_error_if,
}

abbrev player_fields : List (Text × Player.Info) → Fields
player_fields [] = end
player_fields ((id, i) ∷ m) = field id (info_json i) (player_fields m)

-- the JSON of a game's Info
unfoldable pub game_info_json : Info → Json
unfolding info_json
game_info_json i =
    obj
      (field (codes "id") (str i.id) (field (codes "players") (obj (player_fields i.players)) end))

-- eventRangeResponse
pub record EventRangeResponse : Type 0 where
  pub events : List Event
  pub last_id : ℤ
  pub more : Bool

abbrev event_items : List Event → Items
event_items [] = nil
event_items (e ∷ es) = cons (marshal e) (event_items es)

unfoldable pub event_range_json : EventRangeResponse → Json
event_range_json er = obj (
    field (codes "events") (arr (event_items er.events))
      (field (codes "lastID") (int er.last_id) (field (codes "more") (bool er.more) end)))

last_id_of : ℤ → List Event → ℤ
last_id_of n [] = n
last_id_of n (e ∷ es) = last_id_of (get_id e) es

-- the response for the events that are shown; there are none where the history has none, or none
-- that the player can see
unfoldable pub event_range : ℕ → ℕ → List Event → EventRangeResponse
unfolding last_id_of
event_range max_event_range found [] = record { events = []; last_id = pos 0; more = false }
event_range max_event_range found (e ∷ es) = record {
  events = e ∷ es;
  last_id = last_id_of (get_id e) es;
  more = found == max_event_range;
}

module _ {S : Type 0} where
  -- a bound of the range, from user input
  unfoldable pub read_bound : Bound → Text → Exec S Stop Bound
  unfolding parse_uint
  read_bound unbounded [] = pure unbounded
  read_bound unbounded (c ∷ id) = elim (parse_uint (c ∷ id)) [
    | none ↦ raise (aborted 400)
    | some n ↦ pure (at (pos n))
  ]

  -- the loop that parses the events and leaves out those that the player cannot see
  unfoldable pub parse_visible : Player → List Json → Exec S Stop (List Event)
  unfolding player_can_see_event
  parse_visible plr [] = pure []
  parse_visible plr (event_text ∷ events) = do
    evt ← read_or 500 (parse event_text)
    parsed ← parse_visible plr events
    pure (if player_can_see_event plr evt then evt ∷ parsed else parsed)

module _ (r : Redis) where
  -- handleInfo
  unfoldable pub handle_info : ℕ → Request → Exec r.Db Stop Answer
  unfolding game_info_json
  handle_info retries request = do
    sess ← request_session r request
    info ← http_internal_error_if (get_info r retries sess.game_id)
    pure (written (game_info_json info))

  -- handleEvents, with the form values of the request and config.MaxEventRange
  unfoldable pub handle_events : ℕ → Text → Text → Request → Exec r.Db Stop EventRangeResponse
  unfolding event_range parse_visible read_bound
  handle_events max_event_range newest_value oldest_value request = do
    sess ← request_session r request
    newest ← read_bound plus_inf newest_value
    oldest ← read_bound minus_inf oldest_value
    plr ← http_internal_error_if (get_player r sess)
    events ← http_internal_error_if (get_between r sess.game_id newest oldest max_event_range)
    parsed ← parse_visible plr events
    pure (event_range max_event_range (length events) parsed)
