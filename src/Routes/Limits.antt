-- ===== src/Routes/Limits.antt =====
-- routes/middleware.go and routes/request.go: who may make a request, and how often.
pub mod Counted
use sr_server.Prelude.{
  ℕ, zero, suc, ◌+◌, ◌-◌, ◌/◌, ◌%◌, Bool, true, false, ◌||◌, Option, none, some, List, [], ◌∷◌,
  ◌++◌, ltb, ◌==◌, if◌then◌else◌, Text, codes, text_eq, ℤ, pos, ltb_ℤ, Exec, Result, ok, err, pure,
  raise, wrap, ◌>>=◌, ◌>>◌,
}
use sr_server.Redis.{Redis, RedisError, no_value, failed, Command, incr, expire}
use sr_server.Redis.Transaction.{transaction}
use sr_server.Routes.{Stop, aborted, Answer, http_not_found}

-- the text before the last colon
before_last : Text → Option Text
before_last [] = none
before_last (c ∷ s) = elim (before_last s) [
  | some ip ↦ some (c ∷ ip)
  | none ↦ if c == b':' then some [] else none
]

-- requestRemoteIP on the text of requestRemoteAddr
unfoldable pub request_remote_ip : Text → Text
unfolding before_last
request_remote_ip addr = elim (before_last addr) [ none ↦ addr | some ip ↦ ip ]

-- requestRemoteAddr: the header, by its name in config.ClientIPHeader, before the connection
unfoldable pub request_remote_addr : Text → (Text → Text) → Text → Text
request_remote_addr [] headers remote_addr = remote_addr
request_remote_addr (c ∷ name) headers remote_addr = elim (headers (c ∷ name)) [
  | [] ↦ remote_addr
  | b ∷ res ↦ b ∷ res
]

-- localhostOnlyMiddleware
unfoldable pub localhost_only : {S : Type 0} → Text → Exec S Stop Answer → Exec S Stop Answer
localhost_only remote_ip wrapped =
    if text_eq remote_ip (codes "localhost")
      || text_eq remote_ip (codes "127.0.0.1")
      || text_eq remote_ip (codes "[::1]")
    then wrapped
    else raise (aborted 404)

-- a number in base 10; `fuel` bounds its digits
digits : ℕ → ℕ → Text → Text
digits zero n rest = rest
digits (suc fuel) n rest =
    let more = digits fuel (n / 10) ((b'0' + n % 10) ∷ rest) in
    if ltb n 10 then (b'0' + n) ∷ rest else more

-- rateLimitKey: one for each client and ten seconds
unfoldable pub rate_limit_key : Text → ℕ → Text
unfolding digits
rate_limit_key remote_addr ts =
    codes "ratelimit:" ++ (remote_addr ++ b':' ∷ digits (suc (ts - ts % 10)) (ts - ts % 10) [])

-- redis.ErrNil counts as 0
unfoldable pub counted : {S : Type 0} → Result RedisError ℤ × S → Result Stop ℤ × S
counted (ok n, d) = (ok n, d)
counted (err no_value, d) = (ok (pos 0), d)
counted (err failed, d) = (err (aborted 500), d)

module _ (r : Redis) where
  -- the count of the request; where the client has been told of the limit, an error changes the
  -- answer no more
  unfoldable pub count_request : Bool → Text → Exec r.Db Stop (Unit {0})
  count_request limited key =
      wrap (λ _. aborted (if limited then 429 else 500))
        (transaction r (incr key ∷ expire key (pos 15) ∷ []) >> pure tt)

  -- rateLimitedMiddleware, with config.MaxRequestsPer10Secs and the time in seconds
  unfoldable pub rate_limited : ℤ → Text → ℕ → Exec r.Db Stop Answer → Exec r.Db Stop Answer
  unfolding counted count_request
  rate_limited most remote_addr ts wrapped = do
    let key = rate_limit_key remote_addr ts
    current ← (λ d. counted (r.get_int key d))
    count_request (ltb_ℤ most current) key
    if ltb_ℤ most current then raise (aborted 429) else wrapped
