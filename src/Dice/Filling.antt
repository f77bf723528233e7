-- ===== src/Dice/Filling.antt =====
-- FillRolls and the rounds of ExplodingSixes take what the channel gives first, and count it right.
use sr_server.Prelude.{
  ℕ, zero, suc, ◌+◌, ◌≤◌, ◌≡◌, refl, none, some, List, [], ◌∷◌, leb, ltb, if◌then◌else◌, length,
  count, take, drop, arith, map, pos,
}
use sr_server.Dice.{Filled, fill_rolls, roll_round, is_hit, is_six, failures, reroll_failures}

-- FillRolls waits for ever exactly when the channel gives fewer rolls than the buffer has places;
-- else it holds the first rolls, in order, leaves the others, and its hits are the fives and sixes.
fill_rolls_lem :
    (n : ℕ) (chan : List ℕ)
    → fill_rolls n chan ≡ (
        if leb n (length chan)
        then some
            (record { rolls = take n chan; hits = count is_hit (take n chan); rest = drop n chan })
        else none)
unfolding fill_rolls
fill_rolls_lem zero chan = ground arith
fill_rolls_lem (suc n) [] = ground arith
fill_rolls_lem (suc n) (x ∷ chan) = ground (arith, fill_rolls_lem n chan)

pub roll_round_lem :
    (n : ℕ) (chan : List ℕ)
    → roll_round n chan ≡ (
        if leb n (length chan)
        then some
            (record { dice = take n chan; sixes = count is_six (take n chan); rest = drop n chan })
        else none)
unfolding roll_round
roll_round_lem zero chan = ground arith
roll_round_lem (suc n) [] = ground arith
roll_round_lem (suc n) (x ∷ chan) = ground (arith, roll_round_lem n chan)

pub length-take_le {ℓ} : {A : Type ℓ} (n : ℕ) (xs : List A) → n ≤ length xs → length (take n xs) ≡ n
length-take_le zero xs h = refl
length-take_le (suc n) [] h = absurd (omega arith)
length-take_le (suc n) (x ∷ xs) h = omega (arith, length-take_le n xs)

-- Every die of the roll shows a face.
abbrev pub AllFaces : List ℕ → Type 0
AllFaces [] = Unit
AllFaces (die ∷ dice) = ((1 ≤ die) × (die ≤ 6)) × AllFaces dice

pub failures-count :
    (original : List ℕ) → failures (map pos original) ≡ count (λ die. ltb die 5) original
unfolding failures
failures-count [] = refl
failures-count (die ∷ original) = ground (arith, failures-count original)

hits-and-failures :
    (original : List ℕ)
    → AllFaces original
    → count is_hit original + failures (map pos original) ≡ length original
unfolding failures
hits-and-failures [] h = refl
hits-and-failures (die ∷ original) h = ground (arith, hits-and-failures original h.1)

-- The reroll of a roll of faces has one die for each die that was no hit: given that many rolls,
-- RerollFailures returns them, and with the hits of the roll they make up its size.
reroll_failures-length :
    (original chan : List ℕ) {f : Filled}
    → AllFaces original
    → reroll_failures (map pos original) chan ≡ some f
    → length f.rolls + count is_hit original ≡ length original
unfolding reroll_failures
reroll_failures-length original chan faces e = ground (
  arith,
  fill_rolls_lem (failures (map pos original)) chan,
  hits-and-failures original,
  length-take_le (failures (map pos original)) chan,
)
