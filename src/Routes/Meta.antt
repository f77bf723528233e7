-- ===== src/Routes/Meta.antt =====
-- routes/meta.go: the root page, the redirect to the frontend, and the health check. `decode` is
-- base64.StdEncoding.DecodeString, and `int_reply` what redis.Int makes of the reply of KEYS.
mod Tests
pub mod Health
use sr_server.Prelude.{
  ℕ, Bool, true, false, not, ◌&&◌, Option, none, some, List, [], ◌∷◌, drop, length, ltb,
  if◌then◌else◌, Text, codes, text_eq, has_prefix, ℤ, pos, eq_ℤ, Exec, Result, ok, err, pure, raise,
  lift, ◌>>=◌, ◌>>◌,
}
use sr_server.Json.{int, obj, field, end}
use sr_server.Fault.{redis}
use sr_server.Redis.{Redis, RedisError, exists}
use sr_server.Player.Stored.{is_blank}
use sr_server.Routes.{
  Stop, aborted, crashed, Answer, empty, written, http_internal_error_if, http_not_found, stop_if,
}
use sr_server.Routes.Tasks.{http_internal_error}

-- handleRoot
unfoldable pub handle_root : {S : Type 0} → Exec S Stop Answer
handle_root = raise (aborted 404)

-- handleFrontendRedirect: the status and the address, by config.FrontendRedirectPermanent
unfoldable pub handle_frontend_redirect : Bool → Text → ℕ × Text
handle_frontend_redirect permanent origin = (if permanent then 301 else 303, origin)

-- Whether the health check goes on to the counts; `panics` is `auth[8:]` on a header that is
-- "Bearer " and nothing more.
pub data Extra : Type 0 where
  skips sends panics : Extra

-- the checks of handleHealthCheck between the health and the counts
unfoldable pub extra_info : (Text → Option Text) → Bool → Text → Text → Extra
extra_info decode is_production secret_key auth =
    if is_production && is_blank secret_key
    then skips
    else if not is_production
    then sends
    else if not (has_prefix auth (codes "Bearer "))
    then skips
    else if ltb (length auth) 8
    then panics
    else elim (decode (drop 8 auth)) [
      | none ↦ skips
      | some key ↦ if text_eq key secret_key then sends else skips
    ]

module _ (r : Redis) (int_reply : List Text → Result RedisError ℤ) where
  abbrev pub count_keys : Text → Exec r.Db Stop ℤ
  count_keys prefix = http_internal_error_if (redis (r.keys prefix >>= λ ks. lift (int_reply ks)))

  unfoldable pub send_counts : Exec r.Db Stop Answer
  send_counts = do
    games ← count_keys (codes "game:")
    sessions ← count_keys (codes "session:")
    pure (
        written
          (obj (field (codes "games") (int games) (field (codes "sessions") (int sessions) end))))

  abbrev pub after_check : Extra → Exec r.Db Stop Answer
  after_check skips = pure empty
  after_check sends = send_counts
  after_check panics = raise crashed

  -- handleHealthCheck
  unfoldable pub handle_health_check :
      (Text → Option Text) → Bool → Text → Text → Exec r.Db Stop Answer
  unfolding extra_info send_counts
  handle_health_check decode is_production secret_key auth = do
    n ← http_internal_error_if (redis (r.call (exists (codes "auth_version"))))
    http_internal_error (eq_ℤ n (pos 0))
    after_check (extra_info decode is_production secret_key auth)
