-- ===== src/Routes/Quiet.antt =====
-- Actions that only read, and handlers that leave the data as it was where they refuse a request.
use sr_server.Prelude.{
  ◌≤◌, ◌<◌, ℕ, ◌≡◌, ◌≢◌, refl, sym, ap, ◌∙◌, inl, inr, Bool, true, false, Option, none, some, Text,
  Exec, Result, ok, err, pure, wrap, continue, map_err, bind-err, wrap-err, ◌>>=◌, ◌>>◌, arith,
}
use sr_server.Json.{Mismatch}
use sr_server.Fault.{Fault, refuse_if}
use sr_server.Redis.{Redis, Bound}
use sr_server.Redis.Documented.{Documented}
use sr_server.Routes.{
  Answer, response, recovery, Stop, aborted, stop_of, http_do_error_if, http_internal_error_if,
  read_or, received, stop_if,
}

-- An answer of 400 to 499 is the status of an aborted request.
pub aborted_of :
    {S : Type 0} (m : Exec S Stop Answer) (d d' : S) (n : ℕ) (a : Answer)
    → 400 ≤ n
    → n < 500
    → recovery m d ≡ (response n a, d')
    → m d ≡ (err (aborted n), d')
unfolding recovery
aborted_of m d d' n a low high h = ground arith

module _ (r : Redis) (doc : Documented r) where
  open doc use {view}

  -- The action leaves the data as it is, however it ends.
  unfoldable pub Reads : {E A : Type 0} → Exec r.Db E A → Type 0
  Reads m = (d : r.Db) → view (m d).1 ≡ view d

  -- Where the handler refuses the request, with a status other than 500, it leaves the data as it
  -- is.
  unfoldable pub Quiet : {A : Type 0} → Exec r.Db Stop A → Type 0
  Quiet m = (d d' : r.Db) (n : ℕ) → n ≢ 500 → m d ≡ (err (aborted n), d') → view d' ≡ view d

  -- The handler refuses with no status but 500.
  unfoldable pub Loud : {A : Type 0} → Exec r.Db Stop A → Type 0
  Loud m = (d d' : r.Db) (n : ℕ) → m d ≡ (err (aborted n), d') → n ≡ 500

  module _ {E A B : Type 0} where
    pub Reads-continue :
        (d : r.Db) (p : Result E A × r.Db) (f : A → Exec r.Db E B)
        → view p.1 ≡ view d
        → ((a : A) → Reads (f a))
        → view (continue p f).1 ≡ view d
    unfolding Reads Quiet Loud
    Reads-continue d (ok a, t) f h rest = rest a t ∙ h
    Reads-continue d (err e, t) f h rest = h

    pub Reads-bind :
        (m : Exec r.Db E A) (f : A → Exec r.Db E B)
        → Reads m
        → ((a : A) → Reads (f a))
        → Reads (m >>= f)
    unfolding Reads Quiet Loud
    Reads-bind m f h rest d = Reads-continue d (m d) f (h d) rest

  module _ {E F A : Type 0} where
    pub Reads-map_err : (f : E → F) (p : Result E A × r.Db) → view (map_err f p).1 ≡ view p.1
    unfolding Reads Quiet Loud
    Reads-map_err f (ok a, t) = refl
    Reads-map_err f (err e, t) = refl

    pub Reads-wrap : (f : E → F) (m : Exec r.Db E A) → Reads m → Reads (wrap f m)
    unfolding Reads Quiet Loud
    Reads-wrap f m h d = Reads-map_err f (m d) ∙ h d

  pub Reads-refuse_if : (b : Bool) (e : Fault) → Reads (refuse_if b e)
  unfolding Reads Quiet Loud
  Reads-refuse_if true e d = refl
  Reads-refuse_if false e d = refl

  pub Reads-stop_if : (b : Bool) (e : Stop) → Reads (stop_if b e)
  unfolding Reads stop_if
  Reads-stop_if true e d = refl
  Reads-stop_if false e d = refl

  status_of_internal : (e : Fault) {n : ℕ} → stop_of 500 e ≡ aborted n → n ≡ 500
  status_of_internal e h = ground arith

  module _ {A : Type 0} where
    pub Reads-read_or : (n : ℕ) (x : Result Mismatch A) → Reads (read_or n x)
    unfolding Reads read_or
    Reads-read_or n (ok a) d = refl
    Reads-read_or n (err e) d = refl

    pub Reads-received : (x : Option A) → Reads (received x)
    unfolding Reads received
    Reads-received none d = refl
    Reads-received (some a) d = refl

    pub Reads-http_do_error_if :
        (n : ℕ) (m : Exec r.Db Fault A) → Reads m → Reads (http_do_error_if n m)
    unfolding http_do_error_if Reads Quiet Loud
    Reads-http_do_error_if n m h = Reads-wrap _ m h

    pub Quiet-Reads : (m : Exec r.Db Stop A) → Reads m → Quiet m
    unfolding Reads Quiet
    Quiet-Reads m h d d' n refused e = sym (ap (λ p. view p.1) e) ∙ h d

    pub Quiet-Loud : (m : Exec r.Db Stop A) → Loud m → Quiet m
    unfolding Reads Quiet Loud
    Quiet-Loud m h d d' n refused e = absurd (refused (h d d' n e))

    pub Loud-pure : (a : A) → Loud (pure a)
    unfolding Reads Quiet Loud
    Loud-pure a d d' n e = cc

    pub Loud-http_internal_error_if : (m : Exec r.Db Fault A) → Loud (http_internal_error_if m)
    unfolding http_do_error_if Reads Quiet Loud
    Loud-http_internal_error_if m d d' n h =
        let (e, _, same) = wrap-err _ m d h in status_of_internal e (sym same)

  module _ {A B : Type 0} where
    pub Loud-bind :
        (m : Exec r.Db Stop A) (f : A → Exec r.Db Stop B)
        → Loud m
        → ((a : A) → Loud (f a))
        → Loud (m >>= f)
    unfolding Reads Quiet Loud
    Loud-bind m f h rest d d' n e = elim (bind-err m f d e) [
      | inl stopped ↦ h d d' n stopped
      | inr (a, t, _, later) ↦ rest a t d' n later
    ]

    pub Quiet-bind :
        (m : Exec r.Db Stop A) (f : A → Exec r.Db Stop B)
        → Reads m
        → ((a : A) → Quiet (f a))
        → Quiet (m >>= f)
    unfolding Reads Quiet Loud
    Quiet-bind m f h rest d d' n refused e = elim (bind-err m f d e) [
      | inl stopped ↦ Quiet-Reads m h d d' n refused stopped
      | inr (a, t, gone, later) ↦ rest a t d' n refused later ∙ sym (ap (λ p. view p.1) gone) ∙ h d
    ]

    -- the last steps of a handler: a write, whose errors are answered with 500, and an answer
    pub Quiet-write : (m : Exec r.Db Fault A) (b : B) → Quiet (http_internal_error_if m >> pure b)
    unfolding Reads Quiet Loud
    Quiet-write m b =
        Quiet-Loud _ (Loud-bind _ _ (Loud-http_internal_error_if m) (λ _. Loud-pure b))

  -- an action that does nothing to the state
  pub Reads-pass : {E A : Type 0} (m : Exec r.Db E A) → ((d : r.Db) → (m d).1 ≡ d) → Reads m
  unfolding Reads
  Reads-pass m h d = ap view (h d)

  pub Reads-hgetall : (k : Text) → Reads (r.hgetall k)
  unfolding Reads
  Reads-hgetall k d = doc.hgetall_view k d

  pub Reads-zrevrangebyscore :
      (k : Text) (newest oldest : Bound) (count : ℕ)
      → Reads (r.zrevrangebyscore k newest oldest count)
  unfolding Reads
  Reads-zrevrangebyscore k newest oldest count d = doc.zrevrangebyscore_view k newest oldest count d
