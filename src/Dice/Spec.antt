-- ===== src/Dice/Spec.antt =====
-- The Rule of Six as a relation, stated apart from the loops of roll.go.
use sr_server.Prelude.{
  ℕ, ◌+◌, ◌<◌, ◌≡◌, List, [], ◌∷◌, length, count, concat, length-append, count-append, arith,
}
use sr_server.Dice.{is_six}

-- `rounds` is a full roll of `pool` dice: every round has as many dice as the last had sixes, and
-- the roll ends when a round has none.
pub data Explodes : ℕ → List (List ℕ) → Type 0 where
  over : {pool : ℕ} → pool ≡ 0 → Explodes pool []
  again :
      {pool : ℕ} {dice : List ℕ} {rounds : List (List ℕ)}
      → 0 < pool
      → length dice ≡ pool
      → Explodes (count is_six dice) rounds
      → Explodes pool (dice ∷ rounds)

-- In such a roll each six brings one more die.
pub Explodes-length :
    {pool : ℕ} {rounds : List (List ℕ)}
    → Explodes pool rounds
    → length (concat rounds) ≡ pool + count is_six (concat rounds)
Explodes-length (over e) = omega arith
Explodes-length (again {dice = d} {rounds = rs} h e x) =
    omega (arith, Explodes-length x, length-append d (concat rs), count-append is_six d (concat rs))
