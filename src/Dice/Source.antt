-- ===== src/Dice/Source.antt =====
-- roll.go, GenerateRolls: random bytes become dice, with the bytes past the last whole block of
-- faces thrown away.
use sr_server.Prelude.{
  ℕ, zero, suc, ◌+◌, ◌-◌, ◌%◌, ◌≤◌, ◌≡◌, refl, true, List, [], ◌∷◌, leb, ◌==◌, if◌then◌else◌, count,
  All, arith,
}

abbrev pub roll_max : ℕ
roll_max = 6

abbrev pub input_byte_max : ℕ
input_byte_max = 255 - (255 % roll_max + 1)

-- the rolls that one buffer of bytes sends to the channel
unfoldable pub rolls_of_bytes : List ℕ → List ℕ
rolls_of_bytes [] = []
rolls_of_bytes (b ∷ bytes) =
    let rolls = rolls_of_bytes bytes in
    if leb b input_byte_max then (b % roll_max + 1) ∷ rolls else rolls

-- The bytes below `n`, the highest first.
pub bytes_below : ℕ → List ℕ
bytes_below zero = []
bytes_below (suc n) = n ∷ bytes_below n

-- Every roll is a face of the die, and each byte up to `input_byte_max` gives one roll.
rolls_of_bytes_faces :
    (bytes : List ℕ)
    → All (λ r. (1 ≤ r) × (r ≤ 6)) (rolls_of_bytes bytes)
      × (count (λ r. true) (rolls_of_bytes bytes) ≡ count (λ b. leb b 251) bytes)
unfolding rolls_of_bytes
rolls_of_bytes_faces [] = (tt, refl)
rolls_of_bytes_faces (b ∷ bytes) = ground (arith, rolls_of_bytes_faces bytes)

-- Over the 256 values of a byte each face of the die comes up equally often, 42 times.
pub faces_uniform :
    (face : ℕ)
    → 1 ≤ face
    → face ≤ 6
    → count (λ r. r == face) (rolls_of_bytes (bytes_below 256)) ≡ 42
unfolding rolls_of_bytes bytes_below
faces_uniform zero h k = absurd (omega arith)
faces_uniform (suc zero) h k = refl
faces_uniform (suc (suc zero)) h k = refl
faces_uniform (suc (suc (suc zero))) h k = refl
faces_uniform (suc (suc (suc (suc zero)))) h k = refl
faces_uniform (suc (suc (suc (suc (suc zero))))) h k = refl
faces_uniform (suc (suc (suc (suc (suc (suc zero)))))) h k = refl
faces_uniform (suc (suc (suc (suc (suc (suc (suc n))))))) h k = absurd (omega arith)
