-- ===== src/Routes/Steps.antt =====
-- The steps of the handlers that only read: sessions, players, events, and the loops over a diff.
use sr_server.Prelude.{
  ℕ, ◌≡◌, refl, not, ◌||◌, List, [], ◌∷◌, Text, codes, ltb, ℤ, Exec, Result, length, Bool-cases,
  inl, inr, arith, has_prefix, drop, lift, pure, find, bind-state, ◌>>=◌,
}
use sr_server.Json.{Json}
use sr_server.Fault.{Fault, refuse_if, nil_player, no_session_data}
use sr_server.Redis.{Redis, Hash}
use sr_server.Redis.Documented.{Documented}
use sr_server.Player.{Player}
use sr_server.Player.Stored.{scan_text, scan_int, is_blank}
use sr_server.Player.Stored
use sr_server.Session.{Session, get_player, scan_bool}
use sr_server.Session
use sr_server.Event.{Event, InitiativeRoll}
use sr_server.Event.Events
use sr_server.Update.{Diff}
use sr_server.Routes.{Request, session_from_header, request_session, aborted, crashed, stop_if}
use sr_server.Routes.Quiet.{
  Reads, Reads-pass, Reads-hgetall, Reads-zrevrangebyscore, Reads-bind, Reads-wrap, Reads-refuse_if,
  Reads-stop_if, Reads-read_or, Reads-received, Reads-http_do_error_if,
}
use sr_server.Routes.Rolls.{read_roll_request, rolled, read_initiative_request, RollRequest}
use sr_server.Routes.Edits.{
  update_fields, edit_fields, as_initiative, changed, set_title, set_glitchy, update_field,
  set_base, edit_title, edit_base, edit_seized, edit_field,
}

module _ (r : Redis) (doc : Documented r) where
  -- a field of a struct that is scanned
  Reads-field :
      {A B : Type 0} (x : Result Fault A) (f : A → Exec r.Db Fault B)
      → ((a : A) → Reads r doc (f a))
      → Reads r doc (lift x >>= f)
  Reads-field x f h = Reads-bind r doc (lift x) f (Reads-pass r doc _ (λ d. refl)) h

  Reads-scan_session : (id : Text) (h : Hash) → Reads r doc (Session.scan id h)
  unfolding Session.scan
  Reads-scan_session id h = Reads-field (scan_text (find (codes "gameID") h)) _ λ _.
      Reads-field (scan_text (find (codes "playerID") h)) _ λ _.
        Reads-field (scan_bool (find (codes "persist") h)) _ λ _.
          Reads-field (scan_text (find (codes "username") h)) _ λ _. Reads-pass r doc _ (λ d. refl)

  pub Reads-scan_player : (id : Text) (h : Hash) → Reads r doc (Stored.scan id h)
  unfolding Stored.scan
  Reads-scan_player id h = Reads-field (scan_text (find (codes "name") h)) _ λ _.
      Reads-field (scan_int (find (codes "hue") h)) _ λ _.
        Reads-field (scan_text (find (codes "uname") h)) _ λ _.
          Reads-field (scan_int (find (codes "connections") h)) _ λ _.
            Reads-field (scan_int (find (codes "onlineMode") h)) _
              λ _. Reads-pass r doc _ (λ d. refl)

  pub Reads-session : (id : Text) → Reads r doc (Session.get_by_id r id)
  unfolding Session.get_by_id
  Reads-session id = Reads-bind r doc _ _ (Reads-refuse_if r doc _ _) λ _.
      Reads-bind r doc _ _ (Reads-wrap r doc _ _ (Reads-hgetall r doc _)) λ found.
        Reads-bind r doc _ _ (Reads-refuse_if r doc _ _) λ _.
          Reads-bind r doc _ _ (Reads-scan_session id found) λ s.
            Reads-bind r doc
              (refuse_if (is_blank s.game_id || is_blank s.player_id) no_session_data) _
              (Reads-refuse_if r doc _ _) λ _. Reads-pass r doc (pure s) (λ d. refl)

  pub Reads-player : (id : Text) → Reads r doc (Stored.get_by_id r id)
  unfolding Stored.get_by_id
  Reads-player id = Reads-bind r doc _ _ (Reads-refuse_if r doc _ _) λ _.
      Reads-bind r doc _ _ (Reads-wrap r doc _ _ (Reads-hgetall r doc _)) λ found.
        Reads-bind r doc _ _ (Reads-refuse_if r doc _ _) λ _.
          Reads-bind r doc _ _ (Reads-scan_player id found) λ p.
            Reads-bind r doc (refuse_if (is_blank p.username) nil_player) _
              (Reads-refuse_if r doc _ _) λ _. Reads-pass r doc (pure p) (λ d. refl)

  pub Reads-get_player : (s : Session) → Reads r doc (get_player r s)
  unfolding get_player
  Reads-get_player s = Reads-player s.player_id

  pub Reads-event : (game_id : Text) (id : ℤ) → Reads r doc (Events.get_by_id r game_id id)
  unfolding Events.get_by_id
  Reads-event game_id id =
      Reads-bind r doc _ _ (Reads-wrap r doc _ _ (Reads-zrevrangebyscore r doc _ _ _ _))
        λ _. Reads-pass r doc _ (λ d. refl)

  Reads-header : (request : Request) → Reads r doc (session_from_header request)
  unfolding session_from_header
  Reads-header request =
      let auth = request.authentication in
      Reads-bind r doc (stop_if (not (has_prefix auth (codes "Bearer"))) (aborted 401)) _
        (Reads-stop_if r doc _ _)
        λ _.
          Reads-bind r doc (stop_if (ltb (length auth) 7) crashed) _ (Reads-stop_if r doc _ _)
            λ _. Reads-pass r doc (pure (drop 7 auth)) (λ d. refl)

  pub Reads-request_session : (request : Request) → Reads r doc (request_session r request)
  unfolding request_session
  Reads-request_session request =
      Reads-bind r doc _ _ (Reads-header request)
        λ id. Reads-http_do_error_if r doc 401 _ (Reads-session id)

module _ {S : Type 0} where
  update_field-state :
      (key : Text) (value : Json) (evt : Event) (diff : Diff) (d : S)
      → (update_field key value evt diff d).1 ≡ d
  unfolding update_field set_title set_glitchy changed
  update_field-state key value evt diff d = ground arith

  update_fields-state :
      (requested : Diff) (evt : Event) (diff : Diff) (d : S)
      → (update_fields requested evt diff d).1 ≡ d
  unfolding update_fields
  update_fields-state [] evt diff d = refl
  update_fields-state ((key, value) ∷ requested) evt diff d =
      bind-state (update_field key value evt diff) _ d (update_field-state key value evt diff d)
        (λ next. update_fields-state requested next.0 next.1)

  edit_field-state :
      (key : Text) (value : Json) (evt : InitiativeRoll) (diff : Diff) (d : S)
      → (edit_field key value evt diff d).1 ≡ d
  unfolding edit_field edit_title edit_base edit_seized set_base
  edit_field-state key value evt diff d = ground arith

  edit_fields-state :
      (requested : Diff) (evt : InitiativeRoll) (diff : Diff) (d : S)
      → (edit_fields requested evt diff d).1 ≡ d
  unfolding edit_fields
  edit_fields-state [] evt diff d = refl
  edit_fields-state ((key, value) ∷ requested) evt diff d =
      bind-state (edit_field key value evt diff) _ d (edit_field-state key value evt diff d)
        (λ next. edit_fields-state requested next.0 next.1)

module _ (r : Redis) (doc : Documented r) where
  pub Reads-read_roll_request : (request : Request) → Reads r doc (read_roll_request request)
  unfolding read_roll_request
  Reads-read_roll_request request = Reads-bind r doc _ _ (Reads-read_or r doc _ _) λ _.
      Reads-bind r doc _ _ (Reads-read_or r doc _ _) λ _.
        Reads-bind r doc _ _ (Reads-read_or r doc _ _) λ _.
          Reads-bind r doc _ _ (Reads-read_or r doc _ _) λ _.
            Reads-bind r doc _ _ (Reads-read_or r doc _ _) λ _.
              Reads-bind r doc _ _ (Reads-read_or r doc _ _) λ _. Reads-pass r doc _ (λ d. refl)

  pub Reads-read_initiative_request :
      (request : Request) → Reads r doc (read_initiative_request request)
  unfolding read_initiative_request
  Reads-read_initiative_request request = Reads-bind r doc _ _ (Reads-read_or r doc _ _) λ _.
      Reads-bind r doc _ _ (Reads-read_or r doc _ _) λ _.
        Reads-bind r doc _ _ (Reads-read_or r doc _ _) λ _.
          Reads-bind r doc _ _ (Reads-read_or r doc _ _) λ _.
            Reads-bind r doc _ _ (Reads-read_or r doc _ _) λ _.
              Reads-bind r doc _ _ (Reads-read_or r doc _ _) λ _.
                Reads-bind r doc _ _ (Reads-read_or r doc _ _) λ _. Reads-pass r doc _ (λ d. refl)

  pub Reads-rolled :
      (now : ℕ) (chan : List ℕ) (player : Player) (req : RollRequest)
      → Reads r doc (rolled now chan player req)
  unfolding rolled
  Reads-rolled now chan player req = elim (Bool-cases req.edge) [
    | inl edge ↦
        rw (edge)
          (Reads-bind r doc _ _ (Reads-received r doc _) λ _. Reads-pass r doc _ (λ d. refl))
    | inr plain ↦
        rw (plain)
          (Reads-bind r doc _ _ (Reads-received r doc _) λ _. Reads-pass r doc _ (λ d. refl))
  ]

  pub Reads-update_fields :
      (requested : Diff) (evt : Event) (diff : Diff)
      → Reads r doc (update_fields requested evt diff)
  Reads-update_fields requested evt diff =
      Reads-pass r doc _ (update_fields-state requested evt diff)

  pub Reads-edit_fields :
      (requested : Diff) (evt : InitiativeRoll) (diff : Diff)
      → Reads r doc (edit_fields requested evt diff)
  Reads-edit_fields requested evt diff = Reads-pass r doc _ (edit_fields-state requested evt diff)

  pub Reads-as_initiative : (evt : Event) → Reads r doc (as_initiative evt)
  unfolding as_initiative
  Reads-as_initiative evt = Reads-pass r doc _ (λ d. ground arith)
