-- ===== src/Routes/Meta/Health.antt =====
-- What the health check tells.
use sr_server.Prelude.{
  ◌≡◌, ◌≢◌, refl, sym, ap, ◌∙◌, Bool, true, false, Option, List, Text, codes, ℤ, pos, eq_ℤ, Result,
  ok, err, lift, bind-ok, wrap-ok, arith, ◌>>=◌,
}
use sr_server.Fault.{redis_error, redis}
use sr_server.Redis.{Redis, RedisError, failed, exists}
use sr_server.Redis.Documented.{apply, is_key, one_if, Documented}
use sr_server.Routes.{aborted, Answer, empty, http_internal_error_if, stop_if}
use sr_server.Routes.Ensures.{Ensures, Ensures-stop_if, Ensures-http_do_error_if}
use sr_server.Routes.Meta.{
  Extra, skips, sends, panics, extra_info, count_keys, send_counts, after_check,
  handle_health_check,
}

skips-production :
    (decode : Text → Option Text) (is_production : Bool) (secret_key auth : Text)
    → extra_info decode is_production secret_key auth ≡ skips
    → is_production ≡ true
unfolding extra_info
skips-production decode true secret_key auth h = refl
skips-production decode false secret_key auth h = ground arith

counted-true : (b : Bool) (n : ℤ) → one_if b ≡ n → eq_ℤ n (pos 0) ≡ false → b ≡ true
counted-true true n h k = refl
counted-true false n h k = absurd (ground arith)

cannot_be : {E A : Type 0} {a : A} {e : E} → ◌≡◌ {A = Result E A} (ok a) (err e) → ⊥
cannot_be h = cc

module _ (r : Redis) (doc : Documented r) (int_reply : List Text → Result RedisError ℤ)
    (refuses : (ks : List Text) → int_reply ks ≡ err failed) where
  open doc use {view}

  no_counts : (d d' : r.Db) (a : Answer) → send_counts r int_reply d ≢ (ok a, d')
  unfolding send_counts Ensures
  no_counts d d' a h =
      let m = r.keys (codes "game:") >>= λ ks. lift (int_reply ks) in
      let (games, d1, h1, _) = bind-ok (count_keys r int_reply (codes "game:")) _ d h in
      let read =
        wrap-ok (λ _. redis_error) m d (Ensures-http_do_error_if 500 (redis m) d games d1 h1) in
      let (ks, d2, _, k2) = bind-ok (r.keys (codes "game:")) _ d read in
      cannot_be (sym (ap (λ p. p.0) k2) ∙ refuses ks)

  after_skips :
      (e : Extra) (d d' : r.Db) (a : Answer)
      → after_check r int_reply e d ≡ (ok a, d')
      → (e ≡ skips) × (a ≡ empty) × (d ≡ d')
  after_skips skips d d' a h = (refl, cc, cc)
  after_skips sends d d' a h = absurd (no_counts d d' a h)
  after_skips panics d d' a h = cc

  healthy :
      (d d' : r.Db) (n : ℤ)
      → r.call (exists (codes "auth_version")) d ≡ (ok n, d')
      → eq_ℤ n (pos 0) ≡ false
      → (is_key (codes "auth_version") (view d) ≡ true) × (view d ≡ view d')
  unfolding apply
  healthy d d' n h some_there =
      let done = doc.call_ok (exists (codes "auth_version")) h in
      (counted-true _ n (ap (λ p. p.0) done) some_there, ap (λ p. p.1) done)

  -- A health check that succeeds, where redis.Int refuses the array that KEYS replies, is in
  -- production, finds auth_version in redis, changes no data and tells nothing: the counts of games
  -- and sessions are never sent.
  pub handle_health_check-ok :
      (decode : Text → Option Text) (is_production : Bool) (secret_key auth : Text) (d d' : r.Db)
      (a : Answer)
      → handle_health_check r int_reply decode is_production secret_key auth d ≡ (ok a, d')
      → (is_production ≡ true)
        × (a ≡ empty)
        × (is_key (codes "auth_version") (view d) ≡ true)
        × (view d' ≡ view d)
  unfolding handle_health_check Ensures
  handle_health_check-ok decode is_production secret_key auth d d' a h =
      let ask = redis (r.call (exists (codes "auth_version"))) in
      let extra = extra_info decode is_production secret_key auth in
      let (n, d1, h1, k1) = bind-ok (http_internal_error_if ask) _ d h in
      let (_, d2, h2, k2) = bind-ok (stop_if (eq_ℤ n (pos 0)) (aborted 500)) _ d1 k1 in
      let (some_there, same2) = Ensures-stop_if (eq_ℤ n (pos 0)) (aborted 500) d1 tt d2 h2 in
      let (key, same1) =
        healthy d d1 n
          (wrap-ok (λ _. redis_error) (r.call (exists (codes "auth_version"))) d
            (Ensures-http_do_error_if 500 ask d n d1 h1))
          some_there in
      let (skipped, nothing, same3) = after_skips extra d2 d' a k2 in
      (
        skips-production decode is_production secret_key auth skipped,
        nothing,
        key,
        ap view (sym same3 ∙ same2) ∙ sym same1,
      )
