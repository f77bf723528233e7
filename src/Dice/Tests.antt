-- ===== src/Dice/Tests.antt =====
-- The dice on small channels.
use sr_server.Prelude.{
  ℕ, ◌+◌, ◌≡◌, refl, some, List, [], ◌∷◌, ◌++◌, length, count, concat, ◌==◌, arith,
}
use sr_server.Dice.{Explosion, exploding_sixes, roll_round, is_six}
use sr_server.Dice.Source.{rolls_of_bytes, bytes_below, faces_uniform}
use sr_server.Dice.Spec.{Explodes}
use sr_server.Dice.Exploding.{exploding_sixes-Explodes, exploding_sixes_total}

abbrev chan : List ℕ
chan = 6 ∷ 2 ∷ 6 ∷ 5 ∷ 1 ∷ []

abbrev exploded : Explosion
exploded = record { results = (6 ∷ 2 ∷ []) ∷ (6 ∷ []) ∷ (5 ∷ []) ∷ []; rest = 1 ∷ [] }

explodes : exploding_sixes 2 chan ≡ some exploded
unfolding exploding_sixes roll_round
explodes = refl

exploding_sixes-Explodes_example :
    Explodes 2 (exploded.results) × (concat (exploded.results) ++ exploded.rest ≡ chan)
exploding_sixes-Explodes_example = exploding_sixes-Explodes 2 chan exploded explodes

exploding_sixes_total_example :
    (e : Explosion) × (exploding_sixes 2 chan ≡ some e)
    × Explodes 2 e.results
    × (length (concat e.results) ≡ 2 + count is_six (concat e.results))
exploding_sixes_total_example = exploding_sixes_total 2 chan (omega arith)

faces_uniform_example : count (λ r. r == 4) (rolls_of_bytes (bytes_below 256)) ≡ 42
faces_uniform_example = faces_uniform 4 (omega arith) (omega arith)
