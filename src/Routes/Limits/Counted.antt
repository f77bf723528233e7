-- ===== src/Routes/Limits/Counted.antt =====
-- rateLimitedMiddleware counts every request and passes on those within the limit.
use sr_server.Prelude.{
  ℕ, ◌≡◌, refl, sym, ap, subst, ◌∙◌, ◌⊎◌, inl, inr, Bool, true, false, none, some, List, [], ◌∷◌,
  if◌then◌else◌, Text, ℤ, pos, ◌+ℤ◌, ltb_ℤ, Exec, Result, ok, err, pure, raise, update, update_self,
  text_eq_refl, arith, ◌>>◌, continue, map_err,
}
use sr_server.Json.{Json}
use sr_server.Redis.{Redis, RedisError, no_value, failed, Command, incr, expire}
use sr_server.Redis.Documented.{View, run, apply, is_key, count_at, Documented}
use sr_server.Redis.Transaction.{transaction, transaction-ok, transaction-err}
use sr_server.Routes.{Stop, aborted, Answer}
use sr_server.Routes.Limits.{rate_limit_key, counted, count_request, rate_limited}

-- Nothing but counts and times to live has changed.
abbrev pub OnlyCounts : View → View → Type 0
OnlyCounts v v' =
    (v'.hashes ≡ v.hashes)
    × (v'.zsets ≡ v.zsets)
    × (v'.sets ≡ v.sets)
    × (v'.published ≡ v.published)

commands : Text → List Command
commands key = incr key ∷ expire key (pos 15) ∷ []

key_there :
    (key : Text) (n : ℤ) (v : View)
    → is_key key (record v { counters = update key (some n) v.counters }) ≡ true
key_there key n v = ground (arith, text_eq_refl key)

module _ (precedes : Json → Json → Bool) (key : Text) (v : View) where
  run_counts :
      ((run precedes (commands key) v).1.counters
        ≡ update key (some (count_at key v +ℤ pos 1)) v.counters)
      × OnlyCounts v (run precedes (commands key) v).1
      × ((run precedes (commands key) v).1.ttls key ≡ some (pos 15))
  unfolding run apply commands
  run_counts =
      rw (key_there key (count_at key v +ℤ pos 1) v)
        (refl, (refl, refl, refl, refl), update_self key (some (pos 15)) v.ttls)

module _ (r : Redis) (doc : Documented r) where
  open doc use {view, precedes}

  -- The request is passed on from a state in which it has been counted.
  abbrev pub PassedOn : Text → Exec r.Db Stop Answer → r.Db → Result Stop Answer × r.Db → Type 0
  PassedOn key wrapped d res =
      (d1 : r.Db) × (res ≡ wrapped d1)
      × OnlyCounts (view d) (view d1)
      × ((view d1).counters ≡ update key (some (count_at key (view d) +ℤ pos 1)) (view d).counters)
      × ((view d1).ttls key ≡ some (pos 15))

  rest_of : Bool → Text → Exec r.Db Stop Answer → Exec r.Db Stop Answer
  rest_of limited key wrapped = do
    count_request r limited key
    if limited then raise (aborted 429) else wrapped

  rest_ok :
      (limited : Bool) (key : Text) (wrapped : Exec r.Db Stop Answer) (d t : r.Db) (ns : List ℤ)
      → transaction r (commands key) d ≡ (ok ns, t)
      → rest_of limited key wrapped d ≡ (if limited then (err (aborted 429), t) else wrapped t)
  unfolding rest_of count_request commands
  rest_ok true key wrapped d t ns h =
      ap
        (λ p.
          continue (map_err (λ _. aborted 429) (continue p (λ _. pure tt)))
            (λ _. raise (aborted 429)))
        h
  rest_ok false key wrapped d t ns h =
      ap (λ p. continue (map_err (λ _. aborted 500) (continue p (λ _. pure tt))) (λ _. wrapped)) h

  rest_err :
      (limited : Bool) (key : Text) (wrapped : Exec r.Db Stop Answer) (d t : r.Db) (e : RedisError)
      → transaction r (commands key) d ≡ (err e, t)
      → rest_of limited key wrapped d ≡ (err (aborted (if limited then 429 else 500)), t)
  unfolding rest_of count_request commands
  rest_err limited key wrapped d t e h =
      ap
        (λ p.
          continue
            (map_err (λ _. aborted (if limited then 429 else 500)) (continue p (λ _. pure tt)))
            (λ _. if limited then raise (aborted 429) else wrapped))
        h

  read_count :
      (most : ℤ) (addr : Text) (ts : ℕ) (wrapped : Exec r.Db Stop Answer) (d t : r.Db) (n : ℤ)
      → counted (r.get_int (rate_limit_key addr ts) d) ≡ (ok n, t)
      → rate_limited r most addr ts wrapped d
        ≡ rest_of (ltb_ℤ most n) (rate_limit_key addr ts) wrapped t
  unfolding rate_limited rest_of
  read_count most addr ts wrapped d t n h =
      let key = rate_limit_key addr ts in
      ap
        (λ p. continue p (λ current.
          count_request r (ltb_ℤ most current) key
          >> (if ltb_ℤ most current then raise (aborted 429) else wrapped)))
        h

  -- How a request ends that has found the count over the limit or within it.
  abbrev pub Ends : Bool → Text → Exec r.Db Stop Answer → r.Db → Result Stop Answer × r.Db → Type 0
  Ends limited key wrapped d res =
      ((res.0 ≡ err (aborted 500)) × OnlyCounts (view d) (view res.1))
      ⊎ ((limited ≡ true) × (res.0 ≡ err (aborted 429)) × OnlyCounts (view d) (view res.1))
      ⊎ ((limited ≡ false) × PassedOn key wrapped d res)

  -- what the transaction of the count has done, where it took effect
  Effect : Text → View → View → Type 0
  Effect key v v' =
      (v'.counters ≡ update key (some (count_at key v +ℤ pos 1)) v.counters)
      × OnlyCounts v v'
      × (v'.ttls key ≡ some (pos 15))

  effect :
      (key : Text) (v w v' : View)
      → w ≡ v
      → (run precedes (commands key) w).1 ≡ v'
      → Effect key v v'
  unfolding Effect
  effect key v w v' same h =
      subst (λ x. Effect key v x) (ap (λ x. (run precedes (commands key) x).1) (sym same) ∙ h)
        (run_counts precedes key v)

  only_counts :
      (key : Text) (v w v' : View)
      → w ≡ v
      → (v' ≡ w) ⊎ (v' ≡ (run precedes (commands key) w).1)
      → OnlyCounts v v'
  unfolding Effect
  only_counts key v w v' same (inl h) =
      subst (λ x. OnlyCounts v x) (sym (h ∙ same)) (refl, refl, refl, refl)
  only_counts key v w v' same (inr h) = (effect key v w v' same (sym h)).1

  Ends-ok :
      (limited : Bool) (key : Text) (wrapped : Exec r.Db Stop Answer) (d u : r.Db)
      → Effect key (view d) (view u)
      → Ends limited key wrapped d (if limited then (err (aborted 429), u) else wrapped u)
  unfolding Effect
  Ends-ok true key wrapped d u (_, only, _) = inr (inl (refl, refl, only))
  Ends-ok false key wrapped d u (n, only, life) = inr (inr (refl, (u, refl, only, n, life)))

  Ends-err :
      (limited : Bool) (key : Text) (wrapped : Exec r.Db Stop Answer) (d u : r.Db)
      → OnlyCounts (view d) (view u)
      → Ends limited key wrapped d (err (aborted (if limited then 429 else 500)), u)
  Ends-err true key wrapped d u only = inr (inl (refl, refl, only))
  Ends-err false key wrapped d u only = inl (refl, only)

  rest-Ends :
      (limited : Bool) (key : Text) (wrapped : Exec r.Db Stop Answer) (d t : r.Db)
      (p : Result RedisError (List ℤ) × r.Db)
      → view t ≡ view d
      → transaction r (commands key) t ≡ p
      → Ends limited key wrapped d (rest_of limited key wrapped t)
  rest-Ends limited key wrapped d t (ok ns, u) same h =
      subst (Ends limited key wrapped d) (sym (rest_ok limited key wrapped t u ns h)) (
        Ends-ok limited key wrapped d u (
          effect key (view d) (view t) (view u) same
            (ap (λ p. p.1) (transaction-ok r doc (commands key) t u h))))
  rest-Ends limited key wrapped d t (err e, u) same h =
      subst (Ends limited key wrapped d) (sym (rest_err limited key wrapped t u e h)) (
        Ends-err limited key wrapped d u (
          only_counts key (view d) (view t) (view u) same
            (transaction-err r doc (commands key) t u h)))

  read_failed :
      (most : ℤ) (addr : Text) (ts : ℕ) (wrapped : Exec r.Db Stop Answer) (d t : r.Db)
      → r.get_int (rate_limit_key addr ts) d ≡ (err failed, t)
      → rate_limited r most addr ts wrapped d ≡ (err (aborted 500), t)
  unfolding rate_limited counted
  read_failed most addr ts wrapped d t h = rw h refl

  read-Ends :
      (most : ℤ) (addr : Text) (ts : ℕ) (wrapped : Exec r.Db Stop Answer) (d t : r.Db) (n : ℤ)
      → count_at (rate_limit_key addr ts) (view d) ≡ n
      → view t ≡ view d
      → counted (r.get_int (rate_limit_key addr ts) d) ≡ (ok n, t)
      → Ends
          (ltb_ℤ most (count_at (rate_limit_key addr ts) (view d)))
          (rate_limit_key addr ts)
          wrapped
          d
          (rate_limited r most addr ts wrapped d)
  read-Ends most addr ts wrapped d t n count same h =
      let key = rate_limit_key addr ts in
      subst (λ x. Ends (ltb_ℤ most x) key wrapped d (rate_limited r most addr ts wrapped d))
        (sym count)
        (subst (Ends (ltb_ℤ most n) key wrapped d) (sym (read_count most addr ts wrapped d t n h))
          (rest-Ends (ltb_ℤ most n) key wrapped d t _ same refl))

  limited_by :
      (most : ℤ) (addr : Text) (ts : ℕ) (wrapped : Exec r.Db Stop Answer) (d : r.Db)
      (p : Result RedisError ℤ × r.Db)
      → r.get_int (rate_limit_key addr ts) d ≡ p
      → Ends
          (ltb_ℤ most (count_at (rate_limit_key addr ts) (view d)))
          (rate_limit_key addr ts)
          wrapped
          d
          (rate_limited r most addr ts wrapped d)
  unfolding counted
  limited_by most addr ts wrapped d (ok n, t) h =
      let key = rate_limit_key addr ts in
      let same = ap (λ q. view q.1) (sym h) ∙ doc.get_int_view key d in
      read-Ends most addr ts wrapped d t n
        (ap (λ o. elim o [ none ↦ pos 0 | some m ↦ m ]) (doc.get_int_ok key h)) same (ap counted h)
  limited_by most addr ts wrapped d (err no_value, t) h =
      let key = rate_limit_key addr ts in
      let same = ap (λ q. view q.1) (sym h) ∙ doc.get_int_view key d in
      read-Ends most addr ts wrapped d t (pos 0)
        (ap (λ o. elim o [ none ↦ pos 0 | some m ↦ m ]) (doc.get_int_nil key h)) same (ap counted h)
  limited_by most addr ts wrapped d (err failed, t) h =
      let key = rate_limit_key addr ts in
      let same = ap (λ q. view q.1) (sym h) ∙ doc.get_int_view key d in
      subst (Ends (ltb_ℤ most (count_at key (view d))) key wrapped d)
        (sym (read_failed most addr ts wrapped d t h))
        (inl (refl, subst (λ x. OnlyCounts (view d) x) (sym same) (refl, refl, refl, refl)))

  -- A request ends in one of three ways. It is answered with status 500, as redis fails. Or the
  -- client's count of the last ten seconds was above the limit, and it is answered with status 429.
  -- In both nothing but counts and times to live has changed. Or the count was within the limit, the
  -- limit itself included, and the request is passed on from a state in which it has been counted
  -- and the count is kept for 15 seconds.
  pub rate_limited_lem :
      (most : ℤ) (addr : Text) (ts : ℕ) (wrapped : Exec r.Db Stop Answer) (d : r.Db)
      → Ends
          (ltb_ℤ most (count_at (rate_limit_key addr ts) (view d)))
          (rate_limit_key addr ts)
          wrapped
          d
          (rate_limited r most addr ts wrapped d)
  rate_limited_lem most addr ts wrapped d = limited_by most addr ts wrapped d _ refl
