-- ===== src/Routes/Profile/Refused.antt =====
-- A request to change a player is refused before anything is written.
use sr_server.Prelude.{
  ℕ, ◌≡◌, ◌≤◌, ◌<◌, refl, Bool, true, false, [], ◌∷◌, Text, codes, text_eq, ℤ, Exec, raise, arith,
  if◌then◌else◌,
}
use sr_server.Json.{Json, null, bool, int, frac, str, arr, obj}
use sr_server.Redis.{Redis}
use sr_server.Redis.Documented.{Documented}
use sr_server.Session.{Session}
use sr_server.Update.{Diff}
use sr_server.Routes.{Stop, aborted, Answer, Request, response, recovery}
use sr_server.Routes.Quiet.{
  Reads, Quiet, Reads-bind, Reads-stop_if, Reads-read_or, Reads-http_do_error_if, Reads-pass,
  Quiet-bind, Quiet-write, aborted_of,
}
use sr_server.Routes.Steps.{Reads-request_session, Reads-player}
use sr_server.Routes.Edits.{truncated}
use sr_server.Routes.Profile.{
  Diffs, update_name, update_hue, set_mode, update_mode, update_field, update_player_fields,
  handle_update_player,
}

module _ (r : Redis) (doc : Documented r) where
  update_name-state : (ds : Diffs) (value : Json) (d : r.Db) → (update_name ds value d).1 ≡ d
  unfolding update_name
  update_name-state ds value d = ground arith

  update_hue-state : (ds : Diffs) (value : Json) (d : r.Db) → (update_hue ds value d).1 ≡ d
  unfolding update_hue
  update_hue-state ds value d = ground arith

  Reads-set_mode : (sess : Session) (ds : Diffs) (mode : ℤ) → Reads r doc (set_mode r sess ds mode)
  unfolding set_mode
  Reads-set_mode sess ds mode = Reads-bind r doc _ _ (Reads-stop_if r doc _ _) λ _.
      Reads-bind r doc _ _ (Reads-http_do_error_if r doc _ _ (Reads-player r doc _))
        λ _. Reads-pass r doc _ (λ d. refl)

  Reads-refused : Reads r doc (raise {S = r.Db} {A = Diffs} (aborted 400))
  Reads-refused = Reads-pass r doc _ (λ d. refl)

  Reads-update_mode :
      (sess : Session) (ds : Diffs) (value : Json) → Reads r doc (update_mode r sess ds value)
  unfolding update_mode
  Reads-update_mode sess ds null = Reads-refused
  Reads-update_mode sess ds (bool b) = Reads-refused
  Reads-update_mode sess ds (int n) = Reads-set_mode sess ds n
  Reads-update_mode sess ds (frac n k) = Reads-set_mode sess ds (truncated n k)
  Reads-update_mode sess ds (str t) = Reads-refused
  Reads-update_mode sess ds (arr vs) = Reads-refused
  Reads-update_mode sess ds (obj fs) = Reads-refused

  Reads-if :
      (b : Bool) (m n : Exec r.Db Stop Diffs)
      → Reads r doc m
      → Reads r doc n
      → Reads r doc (if b then m else n)
  Reads-if true m n h k = h
  Reads-if false m n h k = k

  Reads-update_field :
      (sess : Session) (key : Text) (value : Json) (ds : Diffs)
      → Reads r doc (update_field r sess key value ds)
  unfolding update_field
  Reads-update_field sess key value ds =
      let bad : Exec r.Db Stop Diffs = raise (aborted 400) in
      let mode = text_eq key (codes "onlineMode") in
      let else_mode = if mode then update_mode r sess ds value else bad in
      let hue = text_eq key (codes "hue") in
      Reads-if (text_eq key (codes "name")) (update_name ds value)
        (if hue then update_hue ds value else else_mode)
        (Reads-pass r doc _ (update_name-state ds value))
        (Reads-if hue (update_hue ds value) else_mode
          (Reads-pass r doc _ (update_hue-state ds value))
          (Reads-if mode (update_mode r sess ds value) bad (Reads-update_mode sess ds value)
            Reads-refused))

  Reads-update_player_fields :
      (sess : Session) (requested : Diff) (ds : Diffs)
      → Reads r doc (update_player_fields r sess requested ds)
  unfolding update_player_fields
  Reads-update_player_fields sess [] ds = Reads-pass r doc _ (λ d. refl)
  Reads-update_player_fields sess ((key, value) ∷ requested) ds =
      Reads-bind r doc (update_field r sess key value ds) _ (Reads-update_field sess key value ds)
        λ next. Reads-update_player_fields sess requested next

  Quiet-handle_update_player :
      (range : Diff → Diff) (request : Request) → Quiet r doc (handle_update_player r range request)
  unfolding handle_update_player
  Quiet-handle_update_player range request =
      Quiet-bind r doc _ _ (Reads-request_session r doc request) λ sess.
        Quiet-bind r doc _ _ (Reads-read_or r doc _ _) λ _.
          Quiet-bind r doc _ _ (Reads-read_or r doc _ _) λ requested.
            Quiet-bind r doc _ _ (Reads-stop_if r doc _ _) λ _.
              Quiet-bind r doc (update_player_fields r sess (range requested) _) _
                (Reads-update_player_fields sess (range requested) _)
                λ _. Quiet-bind r doc _ _ (Reads-stop_if r doc _ _) λ _. Quiet-write r doc _ _

  -- A request to change the player's own record that is answered with a status of 400 to 499 has
  -- changed no data, in whatever order its changes were taken.
  pub handle_update_player-refused :
      (range : Diff → Diff) (request : Request) (d d' : r.Db) (n : ℕ) (a : Answer)
      → 400 ≤ n
      → n < 500
      → recovery (handle_update_player r range request) d ≡ (response n a, d')
      → doc.view d' ≡ doc.view d
  unfolding Quiet
  handle_update_player-refused range request d d' n a low high h =
      Quiet-handle_update_player range request d d' n (omega arith)
        (aborted_of _ d d' n a low high h)
