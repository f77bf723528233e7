-- ===== src/Id/Laws.antt =====
-- What the IDs of id/ promise.
use sr_server.Prelude.{ℕ, ◌*◌, ◌/◌, ◌%◌, ◌^◌, ◌<◌, ◌≡◌, some, arith, ℤ, pos}
use sr_server.Id.{build_tuid, timestamp, tuid_noise}

-- A TUID keeps the time that it was built for, down to the decisecond, whatever its 16 bits of
-- noise; and the TUID of a later decisecond is greater.
pub build_tuid-timestamp :
    (nanos noise later later_noise : ℕ)
    → nanos < 2 ^ 63
    → later < 2 ^ 63
    → noise < 2 ^ 16
    → later_noise < 2 ^ 16
    → nanos / 100_000_000 < later / 100_000_000
    → (timestamp (build_tuid nanos noise)
        ≡ (nanos / 1_000_000_000, nanos % 1_000_000_000 / 100_000_000 * 100_000_000))
      × (build_tuid nanos noise < build_tuid later later_noise)
unfolding build_tuid timestamp
build_tuid-timestamp nanos noise later later_noise h k m n o = (ground arith, omega arith)

-- TUIDNoise compares the decoded value, not the count of bytes, with 2: it panics on every other
-- value, so the noise that it returns is always 2.
tuid_noise_constant : (b0 b1 : ℕ) {n : ℤ} → tuid_noise b0 b1 ≡ some n → n ≡ pos 2
unfolding tuid_noise
tuid_noise_constant b0 b1 h = ground arith
