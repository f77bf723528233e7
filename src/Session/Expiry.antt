-- ===== src/Session/Expiry.antt =====
-- What Expire and Unexpire of a session do to the data.
use sr_server.Prelude.{
  ◌≡◌, refl, sym, ap, subst, ◌∙◌, ◌⊎◌, inl, inr, Bool, true, false, Bool-cases, not, some, none,
  Text, ◌++◌, update_self, ℤ, pos, eq_ℤ, ok, ok-inj, pure, bind-ok, wrap-ok,
}
use sr_server.Json.{Json}
use sr_server.Fault.{redis, redis_error, or_panic}
use sr_server.Redis.{Redis, expire, persist}
use sr_server.Redis.Documented.{View, apply, is_key, Documented}
use sr_server.Session.{Session, Ttls, ttl, sessions, redis_key, expire_session, unexpire}
use sr_server.Session.Laws.{key_of, or_panic-ok}

-- Only times to live have changed.
abbrev pub SameHashes : View → View → Type 0
SameHashes v v' = v'.hashes ≡ v.hashes

apply_expire :
    (precedes : Json → Json → Bool) (k : Text) (n : ℤ) (v : View)
    → SameHashes v (apply precedes (expire k n) v).1
      × ((eq_ℤ (apply precedes (expire k n) v).0 (pos 0) ≡ true)
          ⊎ ((apply precedes (expire k n) v).1.ttls k ≡ some n))
unfolding apply
apply_expire precedes k n v = elim (Bool-cases (is_key k v)) [
  | inl there ↦ rw (there) (refl, inr (update_self k (some n) v.ttls))
  | inr gone ↦ rw (gone) (refl, inl refl)
]

module _ (r : Redis) (doc : Documented r) where
  open doc use {view, precedes}

  -- Expire, where it succeeds, changes no hash; it reports that there is no such session, or the
  -- session has the time to live of its kind.
  pub expire_session-ok :
      (c : Ttls) (s : Session) (b : Bool) (d d' : r.Db)
      → expire_session r c s d ≡ (ok b, d')
      → SameHashes (view d) (view d')
        × ((b ≡ false) ⊎ ((view d').ttls (sessions ++ s.id) ≡ some (pos (ttl c s))))
  unfolding expire_session
  expire_session-ok c s b d d' h =
      let (k, d1, h1, h2) = bind-ok (or_panic (redis_key s)) _ d h in
      let (found, same) = or_panic-ok (redis_key s) d h1 in
      let (at_key, _) = key_of s k found in
      let cmd = expire k (pos (ttl c s)) in
      let (n, d2, h3, h4) = bind-ok (redis (r.call cmd)) (λ n. pure (not (eq_ℤ n (pos 0)))) d1 h2 in
      let done = doc.call_ok cmd (wrap-ok (λ _. redis_error) (r.call cmd) d1 h3) in
      let (hashes, ends) = apply_expire precedes k (pos (ttl c s)) (view d1) in
      let state = ap (λ p. p.1) done ∙ ap (λ p. view p.1) h4 in
      let reply : not (eq_ℤ (apply precedes cmd (view d1)).0 (pos 0)) ≡ b =
        ap (λ p. not (eq_ℤ p.0 (pos 0))) done ∙ ok-inj (ap (λ p. p.0) h4) in
      (
        ap (λ v. v.hashes) (sym state) ∙ hashes ∙ ap (λ x. (view x).hashes) same,
        elim ends [
          | inl no_key ↦ inl (sym reply ∙ ap not no_key)
          | inr set ↦ inr (
              ap (λ v. v.ttls (sessions ++ s.id)) (sym state)
              ∙ subst (λ x. (apply precedes cmd (view d1)).1.ttls x ≡ some (pos (ttl c s))) at_key
                  set)
        ],
      )

  -- Unexpire, where it succeeds, changes no hash and leaves the session without a time to live.
  pub unexpire-ok :
      (s : Session) (b : Bool) (d d' : r.Db)
      → unexpire r s d ≡ (ok b, d')
      → SameHashes (view d) (view d') × ((view d').ttls (sessions ++ s.id) ≡ none)
  unfolding unexpire apply
  unexpire-ok s b d d' h =
      let (k, d1, h1, h2) = bind-ok (or_panic (redis_key s)) _ d h in
      let (found, same) = or_panic-ok (redis_key s) d h1 in
      let (at_key, _) = key_of s k found in
      let cmd = persist k in
      let (n, d2, h3, h4) = bind-ok (redis (r.call cmd)) (λ n. pure (not (eq_ℤ n (pos 0)))) d1 h2 in
      let done = doc.call_ok cmd (wrap-ok (λ _. redis_error) (r.call cmd) d1 h3) in
      let after = ap (λ p. view p.1) (sym h4) in
      (
        ap (λ v. v.hashes) after ∙ ap (λ p. p.1.hashes) (sym done) ∙ ap (λ x. (view x).hashes) same,
        ap (λ v. v.ttls (sessions ++ s.id)) after
            ∙ ap (λ p. p.1.ttls (sessions ++ s.id)) (sym done)
            ∙ subst (λ x. (apply precedes cmd (view d1)).1.ttls x ≡ none) at_key
                (update_self k none (view d1).ttls),
      )
