-- ===== src/Id.antt =====
-- id/: timestamps, TUIDs and base64 IDs. A time is a number of nanoseconds since 1970, which an
-- int64 holds until the year 2262, so it stands as a natural number below 2 ^ 63.
mod Tests
pub mod Laws
use sr_server.Prelude.{
  ℕ, ◌+◌, ◌-◌, ◌*◌, ◌/◌, ◌%◌, ◌^◌, Option, none, some, map, ltb, ◌==◌, if◌then◌else◌, Text, ℤ, pos,
  negsuc, eq_ℤ,
}

-- strings.ReplaceAll of one byte by another
abbrev pub replace_all : ℕ → ℕ → Text → Text
replace_all old new = map (λ c. if c == old then new else c)

-- URLSafeBase64
unfoldable pub url_safe_base64 : Text → Text
url_safe_base64 id = replace_all b'/' b'_' (replace_all b'+' b'-' id)

abbrev pub ts_multiplier : ℕ
ts_multiplier = 1_000_000

-- TimestampNow, at a clock that shows `now_nanos`
unfoldable pub timestamp_now : ℕ → ℕ
timestamp_now now_nanos = (now_nanos - now_nanos % ts_multiplier) / ts_multiplier

-- NewEventID
unfoldable pub new_event_id : ℕ → ℤ
unfolding timestamp_now
new_event_id now_nanos = pos (timestamp_now now_nanos)

abbrev pub tuid_multiplier : ℕ
tuid_multiplier = 100_000_000

abbrev pub tuid_noise_sub : ℕ
tuid_noise_sub = 2 ^ (2 * 8)

-- BuildTUID; the shift by 16 bits and the sum wrap in 64 bits
unfoldable pub build_tuid : ℕ → ℕ → ℕ
build_tuid nanos noise =
    let decis = nanos / tuid_multiplier in (decis * tuid_noise_sub + noise) % 2 ^ 64

-- TUID.Timestamp, the two arguments of time.Unix: seconds and nanoseconds
unfoldable pub timestamp : ℕ → ℕ × ℕ
timestamp tuid =
    let shifted = tuid / tuid_noise_sub in (shifted / 10, shifted % 10 * tuid_multiplier)

-- the value that binary.Varint decodes from two bytes; its count of bytes is not read
unfoldable pub varint : ℕ → ℕ → ℤ
varint b0 b1 =
    let ux = if ltb b0 128 then b0 else if ltb b1 128 then (b0 - 128) + b1 * 128 else 0 in
    if ux % 2 == 0 then pos (ux / 2) else negsuc (ux / 2)

-- TUIDNoise on the two random bytes; `none` is the panic
unfoldable pub tuid_noise : ℕ → ℕ → Option ℤ
unfolding varint
tuid_noise b0 b1 = let n = varint b0 b1 in if eq_ℤ n (pos 2) then some n else none
