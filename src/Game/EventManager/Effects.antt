-- ===== src/Game/EventManager/Effects.antt =====
-- The shape that the functions of game/ share: a channel, one transaction and a check of its
-- replies. What such an action leaves, when it ends well and when it ends in an error.
use sr_server.Prelude.{
  ◌≡◌, refl, ap, sym, ◌∙◌, ◌⊎◌, inl, inr, Bool, true, false, Option, none, some, List, Text, ℤ,
  Exec, Result, ok, err, ◌>>=◌, bind-ok, bind-err, wrap-ok, wrap-err,
}
use sr_server.Fault.{Fault, redis, or_panic, expect}
use sr_server.Redis.{Redis, Command}
use sr_server.Redis.Documented.{run, Documented}
use sr_server.Redis.Transaction.{transaction, transaction-ok, transaction-err}

module _ (r : Redis) where
  abbrev pub checked : List Command → (List ℤ → Bool) → Exec r.Db Fault (Unit {0})
  checked cs good = redis (transaction r cs) >>= λ results. expect (good results)

  abbrev pub announced :
      Option Text → (Text → List Command) → (List ℤ → Bool) → Exec r.Db Fault (Unit {0})
  announced name cs good = or_panic name >>= λ c. checked (cs c) good

module _ (r : Redis) (doc : Documented r) where
  open doc use {view, precedes}

  expect-ok : (b : Bool) {d d' : r.Db} → expect b d ≡ (ok tt, d') → (b ≡ true) × (d ≡ d')
  expect-ok true h = (refl, cc)
  expect-ok false h = cc

  expect-state :
      (b : Bool) {d d' : r.Db} {e : Result Fault (Unit {0})} → expect b d ≡ (e, d') → d ≡ d'
  expect-state true h = cc
  expect-state false h = cc

  pub checked-ok :
      (cs : List Command) (good : List ℤ → Bool) (d d' : r.Db)
      → checked r cs good d ≡ (ok tt, d')
      → (good (run precedes cs (view d)).0 ≡ true) × (view d' ≡ (run precedes cs (view d)).1)
  checked-ok cs good d d' h =
      let (ns, u, done, good_replies) = bind-ok (redis (transaction r cs)) _ d h in
      let ran = transaction-ok r doc cs d u (wrap-ok _ (transaction r cs) d done) in
      let (fine, same) = expect-ok (good ns) good_replies in
      (ap (λ p. good p.0) ran ∙ fine, ap view (sym same) ∙ sym (ap (λ p. p.1) ran))

  pub checked-err :
      (cs : List Command) (good : List ℤ → Bool) (d d' : r.Db) {e : Fault}
      → checked r cs good d ≡ (err e, d')
      → (view d' ≡ view d) ⊎ (view d' ≡ (run precedes cs (view d)).1)
  checked-err cs good d d' h = elim (bind-err (redis (transaction r cs)) _ d h) [
    | inl failed ↦
        let (_, same, _) = wrap-err _ (transaction r cs) d failed in
        transaction-err r doc cs d d' same
    | inr (ns, u, done, bad) ↦
        let ran = transaction-ok r doc cs d u (wrap-ok _ (transaction r cs) d done) in
        inr (ap view (sym (expect-state (good ns) bad)) ∙ sym (ap (λ p. p.1) ran))
  ]

  pub announced-ok :
      (name : Option Text) (cs : Text → List Command) (good : List ℤ → Bool) (d d' : r.Db)
      → announced r name cs good d ≡ (ok tt, d')
      → (c : Text) × (name ≡ some c)
        × (good (run precedes (cs c) (view d)).0 ≡ true)
        × (view d' ≡ (run precedes (cs c) (view d)).1)
  announced-ok none cs good d d' h = cc
  announced-ok (some c) cs good d d' h =
      let (fine, after) = checked-ok (cs c) good d d' h in (c, refl, fine, after)

  pub announced-err :
      (name : Option Text) (cs : Text → List Command) (good : List ℤ → Bool) (d d' : r.Db)
      {e : Fault}
      → announced r name cs good d ≡ (err e, d')
      → (view d' ≡ view d)
        ⊎ ((c : Text) × (name ≡ some c) × (view d' ≡ (run precedes (cs c) (view d)).1))
  announced-err none cs good d d' h = inl (cc)
  announced-err (some c) cs good d d' h = elim (checked-err (cs c) good d d' h) [
    | inl same ↦ inl same
    | inr all ↦ inr (c, refl, all)
  ]
