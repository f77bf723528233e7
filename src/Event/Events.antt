-- ===== src/Event/Events.antt =====
-- event/events.go: the events of a game's history as redis gives them.
pub mod Laws
use sr_server.Prelude.{
  parse_digits, ℕ, ◌+◌, ◌*◌, ◌-◌, ◌^◌, Bool, true, false, ◌&&◌, Option, none, some, List, [], ◌∷◌,
  ◌++◌, length, ltb, leb, ◌==◌, if◌then◌else◌, Text, ℤ, Exec, Result, ok, err, lift, ◌>>=◌, ◌>>◌,
}
use sr_server.Json.{Json}
use sr_server.Fault.{Fault, rejected, unexpected_reply, redis, expect}
use sr_server.Redis.{Redis, Bound, at, minus_inf, plus_inf, Command, zadd_nx, zremrangebyscore}
use sr_server.Redis.Transaction.{transaction}
use sr_server.Event.{Event, get_id}
use sr_server.Event.Codec.{marshal}
use sr_server.Game.Channels.{channel, history}

unfoldable pub parse_uint : Text → Option ℕ
unfolding parse_digits
parse_uint [] = none
parse_uint (c ∷ s) = elim (parse_digits 0 (c ∷ s)) [
  | none ↦ none
  | some n ↦ if ltb n (2 ^ 64) then some n else none
]

-- ValidID
unfoldable pub valid_id : Text → Bool
unfolding parse_uint
valid_id id = elim (parse_uint id) [ none ↦ false | some _ ↦ true ]

-- `if len(events) == 0 { return error }; return events[0]`
abbrev pub first : List Json → Result Fault Json
first [] = err rejected
first (e ∷ _) = ok e

unfoldable pub replacements : Text → List Event → List Command
replacements game_id [] = []
replacements game_id (evt ∷ events) =
    zremrangebyscore (channel history game_id) (get_id evt) (get_id evt)
    ∷ zadd_nx (channel history game_id) (get_id evt) (marshal evt)
    ∷ replacements game_id events

module _ (r : Redis) where
  -- GetByID
  unfoldable pub get_by_id : Text → ℤ → Exec r.Db Fault Json
  get_by_id game_id event_id = do
    events ← redis (r.zrevrangebyscore (channel history game_id) (at event_id) (at event_id) 1)
    lift (first events)

  -- GetBetween, which asks for events down to "-inf" whatever the oldest
  unfoldable pub get_between : Text → Bound → Bound → ℕ → Exec r.Db Fault (List Json)
  get_between game_id newest oldest count =
      redis (r.zrevrangebyscore (channel history game_id) newest minus_inf count)

  -- GetOlderThan and GetLatest
  unfoldable pub get_older_than : Text → Bound → ℕ → Exec r.Db Fault (List Json)
  unfolding get_between
  get_older_than game_id newest count = get_between game_id newest minus_inf count

  unfoldable pub get_latest : Text → ℕ → Exec r.Db Fault (List Json)
  unfolding get_older_than
  get_latest game_id count = get_older_than game_id plus_inf count

  -- BulkUpdate
  unfoldable pub bulk_update : Text → List Event → Exec r.Db Fault (Unit {0})
  unfolding replacements
  bulk_update game_id events = do
    results ← redis (transaction r (replacements game_id events))
    expect (length results == length events * 2)
