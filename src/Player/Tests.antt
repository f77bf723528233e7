-- ===== src/Player/Tests.antt =====
-- The checks on a player at concrete inputs.
use sr_server.Prelude.{◌≡◌, ◌⊎◌, refl, some, [], ◌∷◌, err, find, update, codes, text_eq}
use sr_server.Fault.{panicked}
use sr_server.Redis.{text}
use sr_server.Redis.Memory.{Store, memory, memory-Documented}
use sr_server.Samples.{player, store}
use sr_server.Player.{Player}
use sr_server.Player.Stored.{player_ids, create}
use sr_server.Player.Stored.Taken.{Overwrites, create-taken}

abbrev named : Store
named = record store {
  view = record store.view {
    hashes = update player_ids ((codes "ada", text (codes "p1")) ∷ []) store.view.hashes;
  };
}

abbrev impostor : Player
impostor = record player { id = codes "p9" }

has_ada :
    find (codes "ada") ((memory-Documented.view named).hashes player_ids) ≡ some (text (codes "p1"))
unfolding memory-Documented text_eq
has_ada = refl

create-taken_example :
    ((create memory impostor named).0 ≡ err panicked)
    ⊎ Overwrites memory memory-Documented impostor (create memory impostor named)
create-taken_example =
    create-taken memory memory-Documented impostor named (text (codes "p1")) has_ada
