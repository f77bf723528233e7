-- ===== src/Session/Laws.antt =====
-- A session that New makes is found by its ID; how long it lives.
use sr_server.Prelude.{
  ◌*◌, ◌≡◌, refl, sym, ap, subst, ◌∙◌, Bool, false, not, Option, none, some, [], ◌∷◌, ◌++◌,
  if◌then◌else◌, Text, text_eq, update_self, ℤ, pos, eq_ℤ, ok, pure, pure-ok, bind-ok, wrap-ok,
  arith,
}
use sr_server.Json.{Json}
use sr_server.Fault.{redis_error, redis, or_panic}
use sr_server.Redis.{Redis, Value, Hash, expire}
use sr_server.Redis.Documented.{View, apply, put_fields, put_field, Documented}
use sr_server.Player.{Player}
use sr_server.Player.Stored.{is_blank}
use sr_server.Session.{Session, Ttls, hour, ttl, sessions, flatten, redis_key, expire_session, new}

-- The session that New makes.
abbrev pub made : Text → Text → Player → Bool → Session
made session_id game_id player persists = record {
  id = session_id;
  game_id = game_id;
  player_id = player.id;
  persist = persists;
  username = player.username;
}

-- The session is all that redis holds at its key, with the time to live of its kind, in seconds.
abbrev pub IsHeld : Ttls → Session → View → Type 0
IsHeld c s v =
    (v.hashes (sessions ++ s.id) ≡ flatten s)
    × (v.ttls (sessions ++ s.id)
        ≡ some (pos (if s.persist then c.persist_days * 24 * hour else c.temp_secs)))

pub or_panic-ok :
    {S A : Type 0} (o : Option A) (d : S) {a : A} {d' : S}
    → or_panic o d ≡ (ok a, d')
    → (o ≡ some a) × (d' ≡ d)
or_panic-ok none d h = cc
or_panic-ok (some b) d h = (cc, cc)

pub key_of :
    (s : Session) (k : Text)
    → redis_key s ≡ some k
    → (k ≡ sessions ++ s.id) × (is_blank s.id ≡ false)
unfolding redis_key
key_of s k h = ground arith

expire_hash :
    (precedes : Json → Json → Bool) (k : Text) (n : ℤ) (v : View) (f : Text × Value) (fs : Hash)
    → v.hashes k ≡ f ∷ fs
    → ((apply precedes (expire k n) v).1.hashes k ≡ f ∷ fs)
      × ((apply precedes (expire k n) v).1.ttls k ≡ some n)
unfolding apply
expire_hash precedes k n v f fs h = rw h (h, update_self k (some n) v.ttls)

some-inj : {A : Type 0} {a b : A} → ◌≡◌ {A = Option A} (some a) (some b) → a ≡ b
some-inj h = cc

fields_of : (s : Session) → put_fields (flatten s) [] ≡ flatten s
unfolding put_fields put_field flatten text_eq
fields_of s = refl

module _ (r : Redis) (doc : Documented r) where
  open doc use {view, precedes}

  expired :
      (c : Ttls) (s : Session) (k : Text) (d d' : r.Db) (b : Bool)
      → redis_key s ≡ some k
      → (view d).hashes k ≡ flatten s
      → expire_session r c s d ≡ (ok b, d')
      → ((view d').hashes k ≡ flatten s) × ((view d').ttls k ≡ some (pos (ttl c s)))
  unfolding expire_session flatten
  expired c s k d d' b key there h =
      let (k', d1, h1, h2) = bind-ok (or_panic (redis_key s)) _ d h in
      let (found, same) = or_panic-ok (redis_key s) d h1 in
      let cmd = expire k' (pos (ttl c s)) in
      let (n, d2, h3, h4) = bind-ok (redis (r.call cmd)) (λ n. pure (not (eq_ℤ n (pos 0)))) d1 h2 in
      let done = doc.call_ok cmd (wrap-ok (λ _. redis_error) (r.call cmd) d1 h3) in
      let e : k' ≡ k = some-inj (sym found ∙ key) in
      let here : (view d1).hashes k' ≡ flatten s =
        ap (λ x. (view x).hashes k') same ∙ ap (view d).hashes e ∙ there in
      let after : (apply precedes cmd (view d1)).1 ≡ view d' =
        ap (λ p. p.1) done ∙ ap (λ p. view p.1) h4 in
      subst (λ x. (x.hashes k ≡ flatten s) × (x.ttls k ≡ some (pos (ttl c s)))) after
        (subst
          (λ x.
            ((apply precedes cmd (view d1)).1.hashes x ≡ flatten s)
            × ((apply precedes cmd (view d1)).1.ttls x ≡ some (pos (ttl c s))))
          e (expire_hash precedes k' (pos (ttl c s)) (view d1) _ _ here))

  stored :
      (s : Session) (k : Text) (d d' : r.Db)
      → (view d).hashes k ≡ []
      → redis (r.hmset k (flatten s)) d ≡ (ok tt, d')
      → (view d').hashes k ≡ flatten s
  unfolding apply
  stored s k d d' fresh h =
      ap (λ v. v.hashes k)
        (doc.hmset_ok k (flatten s) (wrap-ok (λ _. redis_error) (r.hmset k (flatten s)) d h))
      ∙ update_self k _ (view d).hashes
      ∙ ap (put_fields (flatten s)) fresh
      ∙ fields_of s

  -- New, where it succeeds with an ID that redis holds nothing for, returns the session of the game
  -- and the player that it was asked for; that session is all that redis then holds at its key. A
  -- session that is not persistent lives for TempSessionTTLSecs seconds; a persistent one for
  -- PersistSessionTTLDays days as a number of nanoseconds, which redis takes as seconds.
  pub new-ok :
      (c : Ttls) (session_id game_id : Text) (player : Player) (persists : Bool) (s : Session)
      (d d' : r.Db)
      → (view d).hashes (sessions ++ session_id) ≡ []
      → new r c session_id game_id player persists d ≡ (ok s, d')
      → (s ≡ made session_id game_id player persists)
        × (is_blank session_id ≡ false)
        × IsHeld c s (view d')
  unfolding new ttl
  new-ok c session_id game_id player persists s d d' fresh h =
      let m = made session_id game_id player persists in
      let (k, d1, h1, h2) = bind-ok (or_panic (redis_key m)) _ d h in
      let (found, same) = or_panic-ok (redis_key m) d h1 in
      let (at_key, filled) = key_of m k found in
      let (_, d2, h3, h4) = bind-ok (redis (r.hmset k (flatten m))) _ d1 h2 in
      let (b, d3, h5, h6) = bind-ok (expire_session r c m) (λ _. pure m) d2 h4 in
      let empty : (view d1).hashes k ≡ [] =
        ap (λ x. (view x).hashes k) same ∙ ap (view d).hashes at_key ∙ fresh in
      let (hash, life) = expired c m k d2 d3 b found (stored m k d1 d2 empty h3) h5 in
      pure-ok (λ x y. (x ≡ m) × (is_blank session_id ≡ false) × IsHeld c x (view y)) h6
        (
          refl,
          filled,
          (ap (view d3).hashes (sym at_key) ∙ hash, ap (view d3).ttls (sym at_key) ∙ life),
        )
