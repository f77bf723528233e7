-- ===== src/Redis/Transaction.antt =====
-- A MULTI, its commands and its EXEC, as the functions of the program write them out, with the
-- same error for every failure.
use sr_server.Prelude.{
  ◌≡◌, sym, ap, ap₂, ◌∙◌, ◌⊎◌, inl, inr, List, [], ◌∷◌, ◌++◌, ℤ, Exec, ok, err, pure, bind-ok,
  bind-err, ◌>>◌,
}
use mathlib.Core.List.{append_assoc, append-nil}
use sr_server.Redis.{Command, RedisError, Redis}
use sr_server.Redis.Documented.{run, Documented}

module _ (r : Redis) where
  pub send_all : List Command → Exec r.Db RedisError (Unit {0})
  send_all [] = pure tt
  send_all (c ∷ cs) = r.send c >> send_all cs

  unfoldable pub transaction : List Command → Exec r.Db RedisError (List ℤ)
  unfolding send_all
  transaction cs = do r.multi; send_all cs; r.exec_ints

module _ (r : Redis) (doc : Documented r) where
  open doc use {view, queued, precedes}

  send_all-ok :
      (cs : List Command) (d d' : r.Db)
      → send_all r cs d ≡ (ok tt, d')
      → (view d' ≡ view d) × (queued d' ≡ queued d ++ cs)
  unfolding send_all
  send_all-ok [] d d' h =
      let same : d ≡ d' = cc in (ap view (sym same), sym (append-nil (queued d) ∙ ap queued same))
  send_all-ok (c ∷ cs) d d' h =
      let (_, u, sent, later) = bind-ok (r.send c) (λ _. send_all r cs) d h in
      let (same, more) = doc.send_ok c sent in
      let (same', more') = send_all-ok cs u d' later in
      (same' ∙ same, more' ∙ ap (λ q. q ++ cs) more ∙ append_assoc (queued d) (c ∷ []) cs)

  send_all-err :
      (cs : List Command) (d d' : r.Db) {e : RedisError}
      → send_all r cs d ≡ (err e, d')
      → view d' ≡ view d
  unfolding send_all
  send_all-err [] d d' h = cc
  send_all-err (c ∷ cs) d d' h = elim (bind-err (r.send c) (λ _. send_all r cs) d h) [
    | inl stopped ↦ doc.send_err c stopped
    | inr (_, u, sent, later) ↦ send_all-err cs u d' later ∙ (doc.send_ok c sent).0
  ]

  -- A transaction that ends well has done its commands in order, and its replies are theirs.
  pub transaction-ok :
      (cs : List Command) (d d' : r.Db) {ns : List ℤ}
      → transaction r cs d ≡ (ok ns, d')
      → run precedes cs (view d) ≡ (ns, view d')
  unfolding transaction
  transaction-ok cs d d' h =
      let (_, u, began, later) = bind-ok r.multi _ d h in
      let (_, w, sent, done) = bind-ok (send_all r cs) _ u later in
      let (same, empty, _) = doc.multi_ok began in
      let (same', more) = send_all-ok cs u w sent in
      let queue : queued w ≡ cs = more ∙ ap (λ q. q ++ cs) empty in
      ap₂ (run precedes) (sym queue) (sym (same' ∙ same)) ∙ doc.exec_ok done

  -- A transaction that ends in an error has changed nothing, or done all its commands.
  pub transaction-err :
      (cs : List Command) (d d' : r.Db) {e : RedisError}
      → transaction r cs d ≡ (err e, d')
      → (view d' ≡ view d) ⊎ (view d' ≡ (run precedes cs (view d)).1)
  unfolding transaction
  transaction-err cs d d' h = elim (bind-err r.multi _ d h) [
    | inl stopped ↦ inl (doc.multi_err stopped)
    | inr (_, u, began, later) ↦
        let (same, empty, _) = doc.multi_ok began in
        elim (bind-err (send_all r cs) _ u later) [
          | inl stopped ↦ inl (send_all-err cs u d' stopped ∙ same)
          | inr (_, w, sent, done) ↦
              let (same', more) = send_all-ok cs u w sent in
              let queue : queued w ≡ cs = more ∙ ap (λ q. q ++ cs) empty in
              elim (doc.exec_err done) [
                | inl nothing ↦ inl (nothing ∙ same' ∙ same)
                | inr all ↦ inr (all ∙ ap₂ (λ q v. (run precedes q v).1) queue (same' ∙ same))
              ]
        ]
  ]
