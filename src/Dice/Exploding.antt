-- ===== src/Dice/Exploding.antt =====
-- ExplodingSixes follows the Rule of Six, and returns when the channel gives enough rolls.
use mathlib.Core.List.{append_assoc}
use sr_server.Prelude.{
  ℕ, zero, suc, ◌+◌, ◌≤◌, ◌<◌, ◌≡◌, refl, ap, some, List, [], ◌∷◌, ◌++◌, length, count, take, drop,
  concat, Option-cases, ◌∙◌, arith, inl, inr, length-drop, count-append,
}
use sr_server.Dice.{Round, roll_round, Explosion, explode, exploding_sixes, is_six}
use sr_server.Dice.Spec.{Explodes, over, again, Explodes-length}
use sr_server.Dice.Filling.{roll_round_lem, length-take_le}

take-drop : (n : ℕ) (xs : List ℕ) → take n xs ++ drop n xs ≡ xs
take-drop zero xs = refl
take-drop (suc n) [] = refl
take-drop (suc n) (x ∷ xs) = ap (◌∷◌ x) (take-drop n xs)

-- What a finished round has, with the rolls it took.
abbrev IsRound : ℕ → List ℕ → Round → Type 0
IsRound n chan r = (length r.dice ≡ n) × (r.sixes ≡ count is_six r.dice) × (r.dice ++ r.rest ≡ chan)

roll_round-IsRound :
    (n : ℕ) (chan : List ℕ) (r : Round) → roll_round n chan ≡ some r → IsRound n chan r
roll_round-IsRound n chan r e =
    ground (arith, roll_round_lem n chan, length-take_le n chan, take-drop n chan)

-- A round that ends goes on to the rounds of its sixes.
explode-suc :
    (f n : ℕ) (chan : List ℕ) (e : Explosion)
    → explode (suc f) (suc n) chan ≡ some e
    → (r : Round) × (e' : Explosion) × (roll_round (suc n) chan ≡ some r)
      × (explode f r.sixes r.rest ≡ some e')
      × (e.results ≡ r.dice ∷ e'.results)
      × (e.rest ≡ e'.rest)
unfolding explode
explode-suc f n chan e h = elim (Option-cases (roll_round (suc n) chan)) [
  | inl waits ↦ absurd (cc (rw (waits, explode) at h))
  | inr (r, round) ↦ elim (Option-cases (explode f r.sixes r.rest)) [
    | inl waits ↦ absurd (ground arith)
    | inr (e', later) ↦ (r, e', round, later, ground arith, ground arith)
  ]
]

explode-Explodes :
    (fuel pool : ℕ) (chan : List ℕ) (e : Explosion)
    → explode fuel pool chan ≡ some e
    → Explodes pool e.results × (concat e.results ++ e.rest ≡ chan)
explode-Explodes zero pool chan e h = absurd (unfold explode in cc)
explode-Explodes (suc f) zero chan e h =
    unfold explode in
    let done : e ≡ record { results = []; rest = chan } = ground arith in rw done (over refl, refl)
explode-Explodes (suc f) (suc n) chan e h =
    let (r, e', round, later, results, rest) = explode-suc f n chan e h in
    let (len, sixes, taken) = roll_round-IsRound (suc n) chan r round in
    let (ih, split) = explode-Explodes f r.sixes r.rest e' later in
    (
      rw results (again (omega arith) len (rw sixes at ih)),
      rw (results, rest) (append_assoc r.dice (concat e'.results) e'.rest ∙ rw split taken),
    )

count-take-drop :
    (n : ℕ) (chan : List ℕ)
    → count is_six chan ≡ count is_six (take n chan) + count is_six (drop n chan)
count-take-drop n chan =
    omega
      (arith, ap (count is_six) (take-drop n chan), count-append is_six (take n chan) (drop n chan))

explode_total :
    (fuel pool : ℕ) (chan : List ℕ)
    → length chan < fuel
    → pool + count is_six chan ≤ length chan
    → (e : Explosion) × (explode fuel pool chan ≡ some e)
unfolding explode
explode_total zero pool chan h k = absurd (omega arith)
explode_total (suc f) zero chan h k = (record { results = []; rest = chan }, refl)
explode_total (suc f) (suc n) chan h k =
    let round = roll_round_lem (suc n) chan in
    let len = length-drop (suc n) chan in
    let parts = count-take-drop (suc n) chan in
    let dice : List ℕ = take (suc n) chan in
    let (e', later) =
      explode_total f (count is_six dice) (drop (suc n) chan) (omega arith) (omega arith) in
    (record { results = dice ∷ e'.results; rest = e'.rest }, ground (arith, round, later))

-- Whatever ExplodingSixes returns is a full roll of the pool under the Rule of Six, made of the
-- rolls that the channel gave first, in order.
pub exploding_sixes-Explodes :
    (pool : ℕ) (chan : List ℕ) (e : Explosion)
    → exploding_sixes pool chan ≡ some e
    → Explodes pool e.results × (concat e.results ++ e.rest ≡ chan)
unfolding exploding_sixes
exploding_sixes-Explodes pool chan e h = explode-Explodes (suc (length chan)) pool chan e h

-- ExplodingSixes returns as soon as the channel gives one roll for each die of the pool and one
-- more for each six among its rolls.
pub exploding_sixes_total :
    (pool : ℕ) (chan : List ℕ)
    → pool + count is_six chan ≤ length chan
    → (e : Explosion) × (exploding_sixes pool chan ≡ some e)
      × Explodes pool e.results
      × (length (concat e.results) ≡ pool + count is_six (concat e.results))
exploding_sixes_total pool chan h =
    let (e, returns) = explode_total (suc (length chan)) pool chan (omega arith) h in
    let full = (explode-Explodes (suc (length chan)) pool chan e returns).0 in
    (e, unfold exploding_sixes in returns, full, Explodes-length full)
