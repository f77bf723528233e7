-- ===== src/Redis/Memory.antt =====
-- A server in memory that never fails: it shows that what is relied on of Redis can be met, and
-- runs the examples.
use sr_server.Prelude.{
  ◌≡◌, refl, ap, sym, inr, Bool, false, Option, none, some, List, [], ◌∷◌, ◌++◌, map, any, Text,
  text_eq, find, ℤ, Result, ok, err, arith,
}
use sr_server.Json.{Json}
use sr_server.Redis.{Value, text, num, flag, Command, hset, RedisError, no_value, failed, Redis}
use sr_server.Redis.Documented.{View, apply, run, members_between, Documented}

pub record Store : Type 0 where
  pub view : View
  pub queued : List Command
  pub asked : List Text

-- Members of one score stand in the order in which they came.
abbrev pub by_arrival : Json → Json → Bool
by_arrival a b = false

abbrev found_text : Option Value → Result RedisError Text
found_text none = err no_value
found_text (some (text t)) = ok t
found_text (some _) = err failed

abbrev found_int : Option ℤ → Result RedisError ℤ
found_int none = err no_value
found_int (some n) = ok n

abbrev pub memory : Redis
memory = record {
  Db = Store;
  multi = λ d. (ok tt, record d { queued = []; asked = [] });
  send = λ c d. (ok tt, record d { queued = d.queued ++ c ∷ [] });
  exec_ints = λ d. (
    ok (run by_arrival d.queued d.view).0,
    record d { view = (run by_arrival d.queued d.view).1 },
  );
  call =
      λ c d. (ok (apply by_arrival c d.view).0, record d { view = (apply by_arrival c d.view).1 });
  hmset = λ k fs d. (ok tt, record d { view = (apply by_arrival (hset k fs) d.view).1 });
  hgetall = λ k d. (ok (d.view.hashes k), d);
  hget = λ k f d. (found_text (find f (d.view.hashes k)), d);
  get_int = λ k d. (found_int (d.view.counters k), d);
  smembers = λ k d. (ok (d.view.sets k), d);
  watch = λ k d. (ok tt, d);
  unwatch = λ d. (ok tt, d);
  send_hgetall = λ k d. (ok tt, record d { asked = d.asked ++ k ∷ [] });
  exec_hashes = λ d. (ok (map d.view.hashes d.asked), d);
  zrevrangebyscore =
      λ k newest oldest count d. (ok (members_between newest oldest count (d.view.zsets k)), d);
  keys = λ k d. (ok [], d);
}

pub found_text-some : (o : Option Value) {t : Text} → found_text o ≡ ok t → o ≡ some (text t)
found_text-some none h = cc
found_text-some (some (text t)) h = cc
found_text-some (some (num n)) h = cc
found_text-some (some (flag b)) h = cc

pub found_text-none : (o : Option Value) → found_text o ≡ err no_value → o ≡ none
found_text-none none h = refl
found_text-none (some (text t)) h = cc
found_text-none (some (num n)) h = cc
found_text-none (some (flag b)) h = cc

pub found_int-some : (o : Option ℤ) {n : ℤ} → found_int o ≡ ok n → o ≡ some n
found_int-some none h = cc
found_int-some (some n) h = cc

pub found_int-none : (o : Option ℤ) → found_int o ≡ err no_value → o ≡ none
found_int-none none h = refl
found_int-none (some n) h = cc

abbrev Reply : Type 0 → Type 0
Reply A = Result RedisError A × Store

pub no_error :
    {A B : Type 0} {a : A} {s t : Store} {e : RedisError}
    → ◌≡◌ {A = Reply A} (ok a, s) (err e, t)
    → B
no_error h = cc

module _ {A : Type 0} {a b : A} {s t : Store} where
  -- A reply and a store are equal in their parts.
  pub reply_parts : ◌≡◌ {A = Reply A} (ok a, s) (ok b, t) → (a ≡ b) × (s ≡ t)
  reply_parts h = (cc, cc)

  pub with_view : ◌≡◌ {A = Reply A} (ok a, s) (ok b, t) → ◌≡◌ {A = A × View} (a, s.view) (b, t.view)
  with_view h = cc

-- What MULTI and a command in it do to a store.
pub starts :
    (d : Store) {d' : Store}
    → memory.multi d ≡ (ok tt, d')
    → (d'.view ≡ d.view) × (d'.queued ≡ []) × (d'.asked ≡ [])
starts d h = (ground arith, ground arith, ground arith)

pub queues :
    (c : Command) (d : Store) {d' : Store}
    → memory.send c d ≡ (ok tt, d')
    → (d'.view ≡ d.view) × (d'.queued ≡ d.queued ++ c ∷ [])
queues c d h = (ground arith, ground arith)

unfoldable pub memory-Documented : Documented memory
memory-Documented = record {
  precedes = by_arrival;
  view = λ d. d.view;
  queued = λ d. d.queued;
  asked = λ d. d.asked;
  multi_ok = λ {d} h. starts d h;
  multi_err = λ h. no_error h;
  send_ok = λ {d} c h. queues c d h;
  send_err = λ c h. no_error h;
  exec_ok = λ h. with_view h;
  exec_err = λ h. no_error h;
  call_ok = λ c h. with_view h;
  call_err = λ c h. no_error h;
  hmset_ok = λ k fs h. sym (ap (λ d. d.view) (reply_parts h).1);
  hmset_err = λ k fs h. no_error h;
  hgetall_view = λ k d. refl;
  hgetall_ok = λ k h. sym (reply_parts h).0;
  hgetall_err = λ k h. cc;
  hget_view = λ k f d. refl;
  hget_ok = λ k f h. found_text-some _ (ap (λ p. p.0) h);
  hget_nil = λ k f h. found_text-none _ (ap (λ p. p.0) h);
  get_int_view = λ k d. refl;
  get_int_ok = λ k h. found_int-some _ (ap (λ p. p.0) h);
  get_int_nil = λ k h. found_int-none _ (ap (λ p. p.0) h);
  smembers_view = λ k d. refl;
  smembers_ok = λ k m h. ap (any (text_eq m)) (sym (reply_parts h).0);
  watch_view = λ k d. refl;
  unwatch_view = λ d. refl;
  send_hgetall_view = λ k d. refl;
  send_hgetall_ok = λ k h. sym (ap (λ d. d.asked) (reply_parts h).1);
  exec_hashes_view = λ d. refl;
  exec_hashes_ok = λ h. inr (sym (reply_parts h).0);
  zrevrangebyscore_view = λ k newest oldest count d. refl;
  zrevrangebyscore_ok = λ k newest oldest count h. sym (reply_parts h).0;
  keys_view = λ k d. refl;
}
