-- ===== src/Task.antt =====
-- task/: the tasks of the command line. The migration reads a game's events in batches, the newest
-- first, asks who their players are, and writes them back. The text of a log is left out, but not
-- that printEvent can panic.
mod Tests
pub mod Migrated
pub mod Batches
pub mod Streaming
pub mod Rewriting
pub mod Ending
pub mod Finished
use sr_server.Prelude.{
  ℕ, zero, suc, Bool, true, false, not, Option, none, some, List, [], ◌∷◌, map, length, ◌==◌, ltb,
  find, Text, codes, text_eq, ℤ, Exec, Result, ok, err, pure, raise, lift, if◌then◌else◌, ◌>>=◌,
  ◌>>◌,
}
use sr_server.Json.{Json}
use sr_server.Fault.{Fault, not_parsed, panicked, or_panic}
use sr_server.Redis.{Redis, Bound, at}
use sr_server.Id.{new_event_id}
use sr_server.Player.{Player}
use sr_server.Player.Stored.{is_blank}
use sr_server.Event.{
  Event, roll, edge_roll, reroll, initiative_roll, player_join, core_of, with_core, get_id,
  get_player_id, get_player_name,
}
use sr_server.Event.Codec.{parse}
use sr_server.Event.Events.{get_older_than, bulk_update}
use sr_server.Update.{put_key}
use sr_server.Game.Players.{game_exists, get_players_in}

abbrev pub Names : Type 0
Names = List (Text × Text)

abbrev pub buffer_size : ℕ
buffer_size = 200

-- event.Parse of each text of a batch
unfoldable pub parse_all : List Json → Option (List Event)
parse_all [] = some []
parse_all (text ∷ texts) = elim (parse text) [
  | err _ ↦ none
  | ok evt ↦ elim (parse_all texts) [ none ↦ none | some evts ↦ some (evt ∷ evts) ]
]

-- the last event of a batch; the index is out of range on an empty one
unfoldable pub last_event : List Event → Option Event
last_event [] = none
last_event (e ∷ []) = some e
last_event (e ∷ f ∷ es) = last_event (f ∷ es)

abbrev pub or_not_parsed : {S : Type 0} → Option (List Event) → Exec S Fault (List Event)
or_not_parsed none = raise not_parsed
or_not_parsed (some es) = pure es

-- Whether printEvent can index the rounds of the event.
abbrev pub printable : Event → Bool
printable (reroll e) = not (ltb (length e.rounds) 2)
printable _ = true

-- What the migration remembers: migratedPlayers, knownAliases, and the lines that stdin has left.
pub record Migration : Type 0 where
  pub migrated : Names
  pub aliases : Names
  pub stdin : List Text

-- selectAPlayer; `none` is the panic on the end of stdin, and a skip has an empty name
unfoldable pub select_a_player : Names → Bool → List Text → Option ((Text × Text) × List Text)
select_a_player names skipped [] = none
select_a_player names skipped ([] ∷ lines) = elim skipped [
  | true ↦ some ((0 ∷ [], []), lines)
  | false ↦ select_a_player names true lines
]
select_a_player names skipped ((c ∷ name) ∷ lines) = elim (find (c ∷ name) names) [
  | some player_id ↦ some ((player_id, c ∷ name), lines)
  | none ↦ select_a_player names skipped lines
]

chosen : Event → Migration → Option ((Text × Text) × List Text) → Option (Text × Migration)
chosen evt m none = none
chosen evt m (some ((found_id, []), lines)) = some (get_player_id evt, record m { stdin = lines })
chosen evt m (some ((found_id, c ∷ name), lines)) = some (
  found_id,
  record {
    migrated = put_key (get_player_id evt) found_id m.migrated;
    aliases = put_key (get_player_name evt) found_id m.aliases;
    stdin = lines;
  },
)

unfoldable pub prompt : Names → Event → Migration → Option (Text × Migration)
unfolding chosen
prompt names evt m = chosen evt m (select_a_player names false m.stdin)

abbrev is_yes : Text → Bool
is_yes [] = true
is_yes (c ∷ s) = text_eq (c ∷ s) (codes "y")

-- the question whether to use an alias
unfoldable pub confirm : Names → Event → Text → Migration → List Text → Option (Text × Migration)
unfolding prompt
confirm names evt alias_id m [] = none
confirm names evt alias_id m (response ∷ lines) =
    if is_yes response
    then some (
      alias_id,
      record m { migrated = put_key (get_player_id evt) alias_id m.migrated; stdin = lines },
    )
    else prompt names evt (record m { stdin = lines })

-- with an alias for the name of the event's player, or without
or_alias : Names → Event → Migration → Option Text → Option (Text × Migration)
unfolding confirm prompt
or_alias names evt m (some alias_id) = confirm names evt alias_id m m.stdin
or_alias names evt m none = prompt names evt m

-- with a known player for that of the event, or without
or_known : Names → Event → Migration → Option Text → Option (Text × Migration)
unfolding or_alias
or_known names evt m (some found_id) = some (found_id, m)
or_known names evt m none = or_alias names evt m (find (get_player_name evt) m.aliases)

-- migratedPlayerID
unfoldable pub migrated_player_id : Names → Event → Migration → Option (Text × Migration)
unfolding or_known
migrated_player_id names evt m = or_known names evt m (find (get_player_id evt) m.migrated)

abbrev pub set_player_id : Event → Text → Event
set_player_id evt player_id =
    let c = core_of evt in with_core evt (record c { player_id = player_id })

with_event : Event → Text → Option (List Event × Migration) → Option (List Event × Migration)
with_event evt player_id none = none
with_event evt player_id (some (evts, m)) = some (set_player_id evt player_id ∷ evts, m)

-- the player of an event, unless printEvent panics
unfoldable pub player_of : Names → Event → Migration → Option (Text × Migration)
player_of names evt m = if printable evt then migrated_player_id names evt m else none

-- the loop over a batch
unfoldable pub migrate_batch : Names → List Event → Migration → Option (List Event × Migration)
unfolding with_event player_of
migrate_batch names [] m = some ([], m)
migrate_batch names (evt ∷ batch) m = elim (player_of names evt m) [
  | none ↦ none
  | some (player_id, n) ↦ with_event evt player_id (migrate_batch names batch n)
]

-- migratedPlayersByUsername
unfoldable pub by_username : List Player → Names → Names
by_username [] names = names
by_username (p ∷ ps) names = by_username ps (put_key p.username p.id names)

module _ (r : Redis) where
  -- streamReadEvents with a callback that keeps a value; `none` where the fuel runs out
  unfoldable pub stream_read_events :
      {M : Type 0}
      → ℕ
      → Text
      → (List Event → M → Exec r.Db Fault M)
      → ℤ
      → M
      → Exec r.Db Fault (Option M)
  stream_read_events zero game_id callback newest m = pure none
  stream_read_events (suc fuel) game_id callback newest m = do
    texts ← get_older_than r game_id (at newest) buffer_size
    let rest : Exec r.Db Fault (Option _) = (do
      events ← or_not_parsed (parse_all texts)
      n ← callback events m
      oldest ← or_panic (last_event events)
      stream_read_events fuel game_id callback (get_id oldest) n)
    if length texts == 1 then pure (some m) else rest

  -- the callback of the migration
  unfoldable pub migrate : Text → Names → List Event → Migration → Exec r.Db Fault Migration
  migrate game_id names batch m = do
    res ← or_panic (migrate_batch names batch m)
    bulk_update r game_id res.0
    pure res.1

  -- handleGameMigrationTask, at a clock that shows `now` and with the lines of stdin
  unfoldable pub handle_game_migration_task :
      ℕ → ℕ → ℕ → List Text → Text → Exec r.Db Fault (Option Migration)
  unfolding migrate by_username
  handle_game_migration_task fuel retries now stdin game_id = do
    players ← get_players_in r retries game_id
    stream_read_events fuel game_id (migrate game_id (by_username players [])) (new_event_id now)
        (record { migrated = []; aliases = []; stdin = stdin })
