-- ===== src/Routes/Meta/Tests.antt =====
-- A health check of the sample game.
use sr_server.Prelude.{
  ◌≡◌, refl, true, some, Text, codes, text_eq, has_prefix, pos, update, List, ℤ, Result, ok, err,
}
use sr_server.Redis.{RedisError, failed}
use sr_server.Redis.Documented.{is_key, apply}
use sr_server.Redis.Memory.{Store, memory, memory-Documented}
use sr_server.Samples.{store}
use sr_server.Routes.{empty, stop_if, http_do_error_if}
use sr_server.Routes.Meta.{handle_health_check}
use sr_server.Routes.Meta.Health.{handle_health_check-ok}

abbrev versioned : Store
versioned = record store {
  view = record store.view {
    counters = update (codes "auth_version") (some (pos 1)) store.view.counters;
  };
}

abbrev int_reply : List Text → Result RedisError ℤ
int_reply ks = err failed

checks :
    handle_health_check memory int_reply (λ s. some s) true (codes "k") (codes "Bearer k") versioned
    ≡ (ok empty, versioned)
unfolding handle_health_check http_do_error_if stop_if apply text_eq has_prefix
checks = refl

handle_health_check-ok_example :
    (true ≡ true)
    × (empty ≡ empty)
    × (is_key (codes "auth_version") (memory-Documented.view versioned) ≡ true)
    × (memory-Documented.view versioned ≡ memory-Documented.view versioned)
handle_health_check-ok_example =
    handle_health_check-ok memory memory-Documented int_reply (λ ks. refl) (λ s. some s) true
      (codes "k") (codes "Bearer k") versioned versioned empty checks
