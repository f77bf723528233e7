-- ===== src/Dice.antt =====
-- roll.go: the dice. A receive from `rollsChan` takes the head of a list, the rolls that the
-- channel still gives; `none` is a receive that waits for ever.
mod Tests
pub mod Source
pub mod Spec
pub mod Exploding
pub mod Filling
use mathlib.Core.Option
use sr_server.Prelude.{
  ℕ, zero, suc, ◌+◌, Bool, ◌||◌, Option, none, some, List, [], ◌∷◌, ltb, ◌==◌, if◌then◌else◌, Text,
  codes, text_eq, length, ℤ, pos, ltb_ℤ,
}

-- RerollTypeRerollFailures
abbrev pub reroll_type_reroll_failures : Text
reroll_type_reroll_failures = codes "rerollFailures"

unfoldable pub valid_reroll_type : Text → Bool
valid_reroll_type ty = text_eq ty reroll_type_reroll_failures

pub record Filled : Type 0 where
  pub rolls : List ℕ
  pub hits : ℕ
  pub rest : List ℕ

abbrev pub is_hit : ℕ → Bool
is_hit roll = roll == 5 || roll == 6

abbrev pub is_six : ℕ → Bool
is_six roll = roll == 6

add_roll : ℕ → Filled → Filled
add_roll roll f = record f {
  rolls = roll ∷ f.rolls;
  hits = if is_hit roll then f.hits + 1 else f.hits;
}

-- FillRolls, into a buffer of `n` places
unfoldable pub fill_rolls : ℕ → List ℕ → Option Filled
unfolding add_roll
fill_rolls zero chan = some (record { rolls = []; hits = 0; rest = chan })
fill_rolls (suc n) [] = none
fill_rolls (suc n) (roll ∷ chan) = Option.map (add_roll roll) (fill_rolls n chan)

pub record Round : Type 0 where
  pub dice : List ℕ
  pub sixes : ℕ
  pub rest : List ℕ

add_die : ℕ → Round → Round
add_die roll r = record r {
  dice = roll ∷ r.dice;
  sixes = if is_six roll then r.sixes + 1 else r.sixes;
}

-- the inner loop of ExplodingSixes
unfoldable pub roll_round : ℕ → List ℕ → Option Round
unfolding add_die
roll_round zero chan = some (record { dice = []; sixes = 0; rest = chan })
roll_round (suc n) [] = none
roll_round (suc n) (roll ∷ chan) = Option.map (add_die roll) (roll_round n chan)

pub record Explosion : Type 0 where
  pub results : List (List ℕ)
  pub rest : List ℕ

add_round : List ℕ → Explosion → Explosion
add_round dice e = record e { results = dice ∷ e.results }

-- the outer loop, `for pool > 0`; a round takes a roll at least, so the rolls bound the rounds
unfoldable pub explode : ℕ → ℕ → List ℕ → Option Explosion
unfolding add_round
explode zero pool chan = none
explode (suc fuel) zero chan = some (record { results = []; rest = chan })
explode (suc fuel) (suc n) chan = elim (roll_round (suc n) chan) [
  | none ↦ none
  | some r ↦ Option.map (add_round r.dice) (explode fuel r.sixes r.rest)
]

-- ExplodingSixes
unfoldable pub exploding_sixes : ℕ → List ℕ → Option Explosion
unfolding explode
exploding_sixes pool chan = explode (suc (length chan)) pool chan

-- the pool of RerollFailures, one place for each die below 5
unfoldable pub failures : List ℤ → ℕ
failures [] = 0
failures (die ∷ original) =
    let pool = failures original in if ltb_ℤ die (pos 5) then pool + 1 else pool

-- RerollFailures
unfoldable pub reroll_failures : List ℤ → List ℕ → Option Filled
unfolding failures fill_rolls
reroll_failures original chan = fill_rolls (failures original) chan

-- SumRolls
sum_from : ℕ → List ℕ → ℕ
sum_from result [] = result
sum_from result (die ∷ roll) = sum_from (result + die) roll

unfoldable pub sum_rolls : List ℕ → ℕ
unfolding sum_from
sum_rolls roll = sum_from 0 roll
