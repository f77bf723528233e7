-- ===== src/Task/Tests.antt =====
-- The migration and its reading of a history, on the sample game.
use sr_server.Prelude.{◌≡◌, ◌≢◌, refl, none, some, List, [], ◌∷◌, codes, text_eq, ok, arith}
use sr_server.Id.{new_event_id}
use sr_server.Redis.Memory.{memory, memory-Documented}
use sr_server.Samples.{event, store}
use sr_server.Event.{Event}
use sr_server.Event.Codec.{parse-marshal}
use sr_server.Game.Channels.{channel}
use sr_server.Update.{put_key}
use sr_server.Task.{
  Names, Migration, select_a_player, prompt, migrated_player_id, or_alias, or_known, chosen,
  player_of, with_event, migrate_batch, handle_game_migration_task,
}
use sr_server.Task.Migrated.{Migrates, Knows, migrate_batch-ok}
use sr_server.Task.Finished.{handle_game_migration_task-ends}
use sr_server.Task.Streaming.{IsGood}

abbrev names : Names
names = (codes "ada", codes "p7") ∷ []

abbrev at_start : Migration
at_start = record { migrated = []; aliases = []; stdin = codes "bo" ∷ codes "ada" ∷ [] }

abbrev batch : List Event
batch = event ∷ event ∷ []

abbrev after_it : List Event × Migration
after_it = elim (migrate_batch names batch at_start) [ none ↦ ([], at_start) | some p ↦ p ]

migrates : migrate_batch names batch at_start ≡ some after_it
unfolding migrate_batch with_event player_of migrated_player_id or_known or_alias prompt chosen
    select_a_player text_eq put_key
migrates = refl

nothing_known : Knows names at_start
nothing_known = ((λ k id h. cc), (λ k id h. cc))

migrate_batch-ok_example : Migrates names batch after_it.0 × Knows names after_it.1
migrate_batch-ok_example =
    migrate_batch-ok names batch after_it.0 at_start after_it.1 nothing_known migrates

stored-IsGood : IsGood memory memory-Documented (codes "g") store
unfolding channel text_eq memory-Documented new_event_id
stored-IsGood = ((tt, tt), ((event, parse-marshal event refl, refl, refl), tt))

handle_game_migration_task-ends_example :
    handle_game_migration_task memory 2 3 9_000_000 (codes "ada" ∷ []) (codes "g") store
    ≢ (ok none, store)
unfolding channel text_eq memory-Documented new_event_id
handle_game_migration_task-ends_example =
    handle_game_migration_task-ends memory memory-Documented (codes "g") 2 3 9_000_000
      (codes "ada" ∷ []) store store stored-IsGood (omega arith)
