-- ===== src/Auth/Members.antt =====
-- A login that LogPlayerIn lets in is by a player of the game.
use sr_server.Prelude.{
  wrap, ℕ, ◌≡◌, refl, sym, ap, subst, ◌∙◌, Bool, true, false, some, ◌++◌, any, find, Text, text_eq,
  Exec, ok, pure, pure-ok, bind-ok, wrap-ok,
}
use sr_server.Fault.{Fault, player_not_found, nil_player, refuse_if, not_authorized, rejected}
use sr_server.Redis.{Redis, text}
use sr_server.Redis.Documented.{Documented}
use sr_server.Player.{Player}
use sr_server.Player.Stored.{
  scan, scan_text, scan_int, is_blank, is_none, or_not_found, get_by_username, player_ids,
  player_prefix,
}
use sr_server.Player.Stored
use sr_server.Game.Channels.{channel}
use sr_server.Game.Players.{is_absent, Info, players_in, get_info}
use sr_server.Routes.Quiet.{Reads-bind, Reads-wrap, Reads-pass, Reads, Reads-refuse_if}
use sr_server.Routes.Steps.{Reads-player}
use sr_server.Auth.{log_player_in}
use sr_server.Game.Players.Listed.{HasId, scan-HasId}
use sr_server.Game.Players.Members.{Reads-get_info, Reads-view, IsMember, get_info-IsMember}

module _ (r : Redis) (doc : Documented r) where
  open doc use {view}

  after-Reads :
      {E A : Type 0} (m : Exec r.Db E A) (d d' : r.Db) {a : A}
      → Reads r doc m
      → m d ≡ (ok a, d')
      → view d' ≡ view d
  unfolding Reads
  after-Reads m d d' h e = ap (λ p. view p.1) (sym e) ∙ h d

  get_by_id-id :
      (x : Text) (d d' : r.Db) (p : Player) → Stored.get_by_id r x d ≡ (ok p, d') → p.id ≡ x
  unfolding Stored.get_by_id HasId
  get_by_id-id x d d' p h =
      let (_, d1, _, h1) = bind-ok (refuse_if (is_blank x) nil_player) _ d h in
      let (found, d2, _, h2) =
        bind-ok (wrap or_not_found (r.hgetall (player_prefix ++ x))) _ d1 h1 in
      let (_, d3, _, h3) = bind-ok (refuse_if (is_none found) player_not_found) _ d2 h2 in
      let (q, d4, scanned, h4) = bind-ok (scan x found) _ d3 h3 in
      let (_, d5, _, h5) =
        bind-ok (refuse_if (is_blank q.username) nil_player) (λ _. pure q) d4 h4 in
      pure-ok (λ a _. a.id ≡ x) h5 (scan-HasId r.Db x found d3 d4 q scanned)

  -- The player of a username is the one whose ID is kept for it.
  pub get_by_username-id :
      (username : Text) (d d' : r.Db) (p : Player)
      → get_by_username r username d ≡ (ok p, d')
      → (find username ((view d).hashes player_ids) ≡ some (text p.id)) × (view d' ≡ view d)
  unfolding get_by_username
  get_by_username-id username d d' p h =
      let (_, d1, h1, h2) = bind-ok (refuse_if (is_blank username) rejected) _ d h in
      let (x, d2, h3, h4) = bind-ok (wrap or_not_found (r.hget player_ids username)) _ d1 h2 in
      let (_, d3, h5, h6) =
        bind-ok (refuse_if (is_blank x) player_not_found) (λ _. Stored.get_by_id r x) d2 h4 in
      let same1 =
        after-Reads (refuse_if (is_blank username) rejected) d d1
          (Reads-refuse_if r doc (is_blank username) rejected) h1 in
      let read = wrap-ok or_not_found (r.hget player_ids username) d1 h3 in
      let same2 =
        after-Reads (r.hget player_ids username) d1 d2
          (Reads-view r doc _ (doc.hget_view player_ids username)) read in
      let same3 =
        after-Reads (refuse_if (is_blank x) player_not_found) d2 d3
          (Reads-refuse_if r doc (is_blank x) player_not_found) h5 in
      let same4 = after-Reads (Stored.get_by_id r x) d3 d' (Reads-player r doc x) h6 in
      (
        ap (λ v. find username (v.hashes player_ids)) (sym same1)
            ∙ doc.hget_ok player_ids username read
            ∙ ap (λ i. some (text i)) (sym (get_by_id-id x d3 d' p h6)),
        same4 ∙ same3 ∙ same2 ∙ same1,
      )

  refuse_if-ok : (b : Bool) (e : Fault) (d d' : r.Db) → refuse_if b e d ≡ (ok tt, d') → b ≡ false
  refuse_if-ok true e d d' h = cc
  refuse_if-ok false e d d' h = refl

  -- LogPlayerIn, where it succeeds, returns the information of the game that was asked for and the
  -- player whose ID redis keeps for the username, and that ID is in the game's set of players.
  pub log_player_in-ok :
      (retries : ℕ) (game_id username : Text) (d d' : r.Db) (found : Info) (plr : Player)
      → log_player_in r retries game_id username d ≡ (ok (found, plr), d')
      → (found.id ≡ game_id)
        × (find username ((view d).hashes player_ids) ≡ some (text plr.id))
        × (any (text_eq plr.id) ((view d).sets (channel players_in game_id)) ≡ true)
  unfolding log_player_in IsMember
  log_player_in-ok retries game_id username d d' found plr h =
      let (p, d1, h1, h2) = bind-ok (get_by_username r username) _ d h in
      let (i, d2, h3, h4) = bind-ok (get_info r retries game_id) _ d1 h2 in
      let (_, d3, h5, h6) =
        bind-ok (refuse_if (is_absent (find p.id i.players)) not_authorized) (λ _. pure (i, p)) d2
          h4 in
      let (of_name, same) = get_by_username-id username d d1 p h1 in
      let (of_game, member) =
        get_info-IsMember r doc retries p.id game_id d1 d2 i h3 (refuse_if-ok _ _ d2 d3 h5) in
      pure-ok
        (λ x _.
          (x.0.id ≡ game_id)
          × (find username ((view d).hashes player_ids) ≡ some (text x.1.id))
          × (any (text_eq x.1.id) ((view d).sets (channel players_in game_id)) ≡ true))
        h6 (of_game, of_name, subst (IsMember r doc p.id game_id) same member)

  pub Reads-log_player_in :
      (retries : ℕ) (game_id username : Text)
      → Reads r doc (log_player_in r retries game_id username)
  unfolding log_player_in get_by_username
  Reads-log_player_in retries game_id username =
      Reads-bind r doc (get_by_username r username) _
        (Reads-bind r doc (refuse_if (is_blank username) rejected) _ (Reads-refuse_if r doc _ _)
          λ _.
            Reads-bind r doc (wrap or_not_found (r.hget player_ids username)) _
              (Reads-wrap r doc _ _ (Reads-view r doc _ (doc.hget_view player_ids username)))
              λ x.
                Reads-bind r doc (refuse_if (is_blank x) player_not_found) _
                  (Reads-refuse_if r doc _ _) λ _. Reads-player r doc x)
        λ p.
          Reads-bind r doc (get_info r retries game_id) _ (Reads-get_info r doc retries game_id)
            λ i.
              Reads-bind r doc (refuse_if (is_absent (find p.id i.players)) not_authorized) _
                (Reads-refuse_if r doc _ _) λ _. Reads-pass r doc _ (λ d. refl)
