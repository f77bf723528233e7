-- ===== src/Routes/Ensures.antt =====
-- What a handler that ends with an answer has made sure of on its way.
use sr_server.Prelude.{
  pure-ok, ℕ, ◌≡◌, refl, sym, ap, ◌∙◌, ◌⊎◌, inl, inr, Bool, true, false, Option, none, some, Text,
  ℤ, Exec, Result, ok, err, pure, bind-ok, wrap-ok, ◌>>=◌, ◌>>◌,
}
use sr_server.Json.{Json, Mismatch}
use sr_server.Fault.{Fault, redis_error}
use sr_server.Redis.{Redis}
use sr_server.Redis.Documented.{Documented}
use sr_server.Session.{Session, get_player}
use sr_server.Event.Events.{get_by_id}
use sr_server.Event.Events.Laws.{newest_of, get_by_id_lem}
use sr_server.Game.EventManager.Deleting.{of_id}
use sr_server.Routes.{
  Stop, Request, request_session, read_or, received, stop_if, http_do_error_if,
  http_internal_error_if,
}
use sr_server.Routes.Quiet.{Reads}
use sr_server.Routes.Steps.{Reads-request_session, Reads-get_player}

module _ {S : Type 0} where
  -- If the action ends well on this state, its value and the state after it are as the predicate
  -- says.
  unfoldable pub Ensures : {E A : Type 0} → Exec S E A → S → (A → S → Type 0) → Type 0
  Ensures {A} m d P = (a : A) (d' : S) → m d ≡ (ok a, d') → P a d'

  pub Ensures-bind :
      {E A B : Type 0} (m : Exec S E A) (f : A → Exec S E B) (d : S) (Q : A → S → Type 0)
      (P : B → S → Type 0)
      → Ensures m d Q
      → ((a : A) (t : S) → Q a t → Ensures (f a) t P)
      → Ensures (m >>= f) d P
  unfolding Ensures
  Ensures-bind m f d Q P h rest b d' e =
      let (a, t, first, later) = bind-ok m f d e in rest a t (h a t first) b d' later

  pub Ensures-read_or :
      {A : Type 0} (n : ℕ) (x : Result Mismatch A) (d : S)
      → Ensures (read_or n x) d (λ a t. (x ≡ ok a) × (t ≡ d))
  unfolding Ensures read_or
  Ensures-read_or n (ok b) d a t h = (cc, cc)
  Ensures-read_or n (err e) d a t h = cc

  pub Ensures-received :
      {A : Type 0} (x : Option A) (d : S) → Ensures (received x) d (λ a t. (x ≡ some a) × (t ≡ d))
  unfolding Ensures received
  Ensures-received none d a t h = cc
  Ensures-received (some b) d a t h = (cc, cc)

  pub Ensures-stop_if :
      (b : Bool) (e : Stop) (d : S) → Ensures (stop_if b e) d (λ _ t. (b ≡ false) × (t ≡ d))
  unfolding Ensures stop_if
  Ensures-stop_if true e d a t h = cc
  Ensures-stop_if false e d a t h = (refl, cc)

  pub Ensures-http_do_error_if :
      {A : Type 0} (n : ℕ) (m : Exec S Fault A) (d : S)
      → Ensures (http_do_error_if n m) d (λ a t. m d ≡ (ok a, t))
  unfolding Ensures http_do_error_if
  Ensures-http_do_error_if n m d a t h = wrap-ok _ m d h

  pub Ensures-write :
      {A B : Type 0} (m : Exec S Fault A) (b : B) (d : S) (P : B → S → Type 0)
      → ((a : A) (t : S) → m d ≡ (ok a, t) → P b t)
      → Ensures (http_internal_error_if m >> pure b) d P
  unfolding Ensures
  Ensures-write m b d P h b' d' e =
      let (a, t, first, later) = bind-ok (http_internal_error_if m) (λ _. pure b) d e in
      let done = h a t (Ensures-http_do_error_if 500 m d a t first) in pure-ok P later done

  pub Ensures-weaken :
      {E A : Type 0} (m : Exec S E A) (d : S) (P Q : A → S → Type 0)
      → Ensures m d P
      → ((a : A) (t : S) → P a t → Q a t)
      → Ensures m d Q
  unfolding Ensures
  Ensures-weaken m d P Q h imp a t e = imp a t (h a t e)

  pub Ensures-answer :
      {B : Type 0} (b : B) (d : S) (P : B → S → Type 0) → P b d → Ensures {E = Stop} (pure b) d P
  unfolding Ensures
  Ensures-answer b d P h b' d' e = pure-ok P e h

module _ (r : Redis) (doc : Documented r) where
  open doc use {view}

  pub Ensures-request_session :
      (request : Request) (d : r.Db)
      → Ensures
          (request_session r request)
          d
          (λ sess t. ((request_session r request d).0 ≡ ok sess) × (view t ≡ view d))
  unfolding Ensures Reads
  Ensures-request_session request d sess t h =
      (ap (λ p. p.0) h, ap (λ p. view p.1) (sym h) ∙ Reads-request_session r doc request d)

  -- the player of a session, whatever the status of an error
  pub Ensures-get_player :
      (n : ℕ) (sess : Session) (d : r.Db)
      → Ensures
          (http_do_error_if n (get_player r sess))
          d
          (λ plr t. ((get_player r sess d).0 ≡ ok plr) × (view t ≡ view d))
  unfolding Ensures Reads
  Ensures-get_player n sess d plr t h =
      let got = Ensures-http_do_error_if n (get_player r sess) d plr t h in
      (ap (λ p. p.0) got, ap (λ p. view p.1) (sym got) ∙ Reads-get_player r doc sess d)

  found_text :
      (res : Result Fault Json) {a : Result Fault Json}
      → (res ≡ err redis_error) ⊎ (res ≡ a)
      → (text : Json) → res ≡ ok text
      → a ≡ ok text
  found_text res (inl failed) text h = cc
  found_text res (inr found) text h = sym found ∙ h

  -- an event that is found is in the history of the game
  pub Ensures-event :
      (n : ℕ) (game_id : Text) (id : ℤ) (d : r.Db)
      → Ensures
          (http_do_error_if n (get_by_id r game_id id))
          d
          (λ text t. (newest_of (of_id game_id id (view d)) ≡ ok text) × (view t ≡ view d))
  unfolding Ensures
  Ensures-event n game_id id d text t h =
      let got = Ensures-http_do_error_if n (get_by_id r game_id id) d text t h in
      let (same, found) = get_by_id_lem r doc game_id id d in
      (found_text _ found text (ap (λ p. p.0) got), ap (λ p. view p.1) (sym got) ∙ same)
