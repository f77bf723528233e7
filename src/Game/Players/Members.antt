-- ===== src/Game/Players/Members.antt =====
-- Whom GetInfo lists is in the set of the game's players.
use sr_server.Prelude.{
  Bool-cases, ltb, length, raise, ℕ, zero, suc, ◌≡◌, refl, sym, ap, subst, ◌∙◌, ◌⊎◌, inl, inr, Bool,
  true, false, Option, none, some, List, [], ◌∷◌, any, find, Text, codes, text_eq, Exec, Result, ok,
  err, pure, pure-ok, bind-ok, wrap-ok, ends_cases, if◌then◌else◌,
}
use sr_server.Fault.{
  Fault, game_not_found, transaction_aborted, refuse_if, redis_error, redis, rejected,
}
use sr_server.Redis.{Hash, RedisError, Redis}
use sr_server.Redis.Documented.{View, Documented}
use sr_server.Game.Channels.{channel}
use sr_server.Game.Players.{
  is_absent, Info, Maps, none_of, players_in, scan_players, info_map, attempt, is_aborted,
  get_players_in, get_info, ask_all, ask_players, missing, get_player_maps, after_attempts,
}
use sr_server.Routes.Steps.{Reads-scan_player}
use sr_server.Player.Stored.{is_blank}
use sr_server.Routes.Quiet.{Reads, Reads-bind, Reads-wrap, Reads-refuse_if, Reads-pass}
use sr_server.Game.Players.Listed.{scan_players-ids, info_map-ids}

module _ (r : Redis) (doc : Documented r) where
  open doc use {view}

  Reads-redis : {A : Type 0} (m : Exec r.Db RedisError A) → Reads r doc m → Reads r doc (redis m)
  Reads-redis m h = Reads-wrap r doc _ m h

  pub Reads-view :
      {A : Type 0} (m : Exec r.Db RedisError A)
      → ((d : r.Db) → view (m d).1 ≡ view d)
      → Reads r doc m
  unfolding Reads
  Reads-view m h = h

  Reads-ask_all : (ids : List Text) → Reads r doc (ask_all r ids)
  unfolding ask_all
  Reads-ask_all [] = Reads-pass r doc _ (λ d. refl)
  Reads-ask_all (id ∷ ids) =
      Reads-bind r doc (redis (r.send_hgetall (channel (codes "player:") id))) _
        (Reads-redis _ (Reads-view _ (doc.send_hgetall_view _))) λ _. Reads-ask_all ids

  Reads-multi : Reads r doc r.multi
  unfolding Reads
  Reads-multi d = elim (ends_cases (r.multi d)) [
    | inl (_, t, e) ↦ ap (λ p. view p.1) e ∙ (doc.multi_ok e).0
    | inr (_, t, e) ↦ ap (λ p. view p.1) e ∙ doc.multi_err e
  ]

  Reads-ask_players : (ids : List Text) → Reads r doc (ask_players r ids)
  unfolding ask_players
  Reads-ask_players ids = Reads-bind r doc (redis r.multi) _ (Reads-redis _ Reads-multi) λ _.
      Reads-bind r doc (ask_all r ids) _ (Reads-ask_all ids) λ _.
        Reads-bind r doc (redis r.exec_hashes) _ (Reads-redis _ (Reads-view _ doc.exec_hashes_view))
          λ maps.
            Reads-bind r doc (refuse_if (none_of maps) transaction_aborted) _
              (Reads-refuse_if r doc _ _)
              λ _.
                Reads-bind r doc (refuse_if (ltb (length maps) (length ids)) rejected) _
                  (Reads-refuse_if r doc _ _) λ _. Reads-pass r doc _ (λ d. refl)

  Reads-missing : Reads r doc (missing r)
  unfolding missing
  Reads-missing =
      Reads-bind r doc (redis r.unwatch) _ (Reads-redis _ (Reads-view _ doc.unwatch_view))
        λ _. Reads-pass r doc _ (λ d. refl)

  Reads-members :
      (ids : List Text) → Reads r doc (if none_of ids then missing r else ask_players r ids)
  Reads-members [] = Reads-missing
  Reads-members (id ∷ ids) = Reads-ask_players (id ∷ ids)

  Reads-get_player_maps : (game_id : Text) → Reads r doc (get_player_maps r game_id)
  unfolding get_player_maps
  Reads-get_player_maps game_id =
      Reads-bind r doc (redis (r.watch (channel players_in game_id))) _
        (Reads-redis _ (Reads-view _ (doc.watch_view _)))
        λ _.
          Reads-bind r doc (redis (r.smembers (channel players_in game_id))) _
            (Reads-redis _ (Reads-view _ (doc.smembers_view _))) Reads-members

  ask_players-ids :
      (ids : List Text) (d d' : r.Db) (maps : Maps)
      → ask_players r ids d ≡ (ok maps, d')
      → maps.0 ≡ ids
  unfolding ask_players
  ask_players-ids ids d d' maps h =
      let (_, d1, _, h1) = bind-ok (redis r.multi) _ d h in
      let (_, d2, _, h2) = bind-ok (ask_all r ids) _ d1 h1 in
      let (hs, d3, _, h3) = bind-ok (redis r.exec_hashes) _ d2 h2 in
      let (_, d4, _, h4) = bind-ok (refuse_if (none_of hs) transaction_aborted) _ d3 h3 in
      let (_, d5, _, h5) =
        bind-ok (refuse_if (ltb (length hs) (length ids)) rejected) (λ _. pure (ids, hs)) d4 h4 in
      pure-ok (λ x _. x.0 ≡ ids) h5 refl

  members-ids :
      (ids : List Text) (d d' : r.Db) (maps : Maps)
      → (if none_of ids then missing r else ask_players r ids) d ≡ (ok maps, d')
      → maps.0 ≡ ids
  unfolding missing
  members-ids [] d d' maps h =
      let (_, t, _, stopped) = bind-ok (redis r.unwatch) (λ _. raise game_not_found) d h in
      let no : ◌≡◌ {A = Result Fault Maps × r.Db} (err game_not_found, t) (ok maps, d') = stopped in
      cc
  members-ids (id ∷ ids) d d' maps h = ask_players-ids (id ∷ ids) d d' maps h

  -- An ID that is read for a game is in the game's set of players.
  unfoldable pub IsMember : Text → Text → View → Type 0
  IsMember x game_id v = any (text_eq x) (v.sets (channel players_in game_id)) ≡ true

  get_player_maps-IsMember :
      (x game_id : Text) (d d' : r.Db) (maps : Maps)
      → get_player_maps r game_id d ≡ (ok maps, d')
      → any (text_eq x) maps.0 ≡ true
      → IsMember x game_id (view d)
  unfolding get_player_maps IsMember
  get_player_maps-IsMember x game_id d d' maps h member =
      let key = channel players_in game_id in
      let (_, d1, watched, h1) = bind-ok (redis (r.watch key)) _ d h in
      let (ids, d2, read, h2) =
        bind-ok (redis (r.smembers key))
          (λ ids. if none_of ids then missing r else ask_players r ids) d1 h1 in
      let same : view d1 ≡ view d =
        ap (λ p. view p.1) (sym (wrap-ok (λ _. redis_error) (r.watch key) d watched))
        ∙ doc.watch_view key d in
      let law = doc.smembers_ok key x (wrap-ok (λ _. redis_error) (r.smembers key) d1 read) in
      subst (λ v. any (text_eq x) (v.sets key) ≡ true) same
        (sym law ∙ subst (λ l. any (text_eq x) l ≡ true) (members-ids ids d2 d' maps h2) member)

  -- what follows an attempt
  ending : ℕ → Text → Result Fault Maps × r.Db → Result Fault Maps × r.Db
  ending n game_id p = elim p.0 [
    | ok maps ↦ (ok maps, p.1)
    | err e ↦
        let again = attempt r n (some e) game_id p.1 in if is_aborted e then again else (err e, p.1)
  ]

  not_stopped :
      (b : Bool) (e : Fault) (t d' : r.Db) (maps : Maps) (q : Result Fault Maps × r.Db)
      → (if b then q else (err e, t)) ≡ (ok maps, d')
      → q ≡ (ok maps, d')
  not_stopped true e t d' maps q h = h
  not_stopped false e t d' maps q h = cc

  after_maps :
      (n : ℕ) (last : Option Fault) (game_id : Text) (d d' : r.Db) (maps : Maps)
      (p : Result Fault Maps × r.Db)
      → get_player_maps r game_id d ≡ p
      → attempt r (suc n) last game_id d ≡ (ok maps, d')
      → (p ≡ (ok maps, d')) ⊎ ((e : Fault) × (attempt r n (some e) game_id p.1 ≡ (ok maps, d')))
  unfolding attempt ending
  after_maps n last game_id d d' maps (ok m, t) h e = inl (sym (ap (ending n game_id) h) ∙ e)
  after_maps n last game_id d d' maps (err f, t) h e =
      inr (f, not_stopped (is_aborted f) f t d' maps _ (sym (ap (ending n game_id) h) ∙ e))

  after_attempts-none :
      (x : Text) (last : Option Fault) (d d' : r.Db) (maps : Maps)
      → after_attempts r last d ≡ (ok maps, d')
      → any (text_eq x) maps.0 ≡ false
  unfolding after_attempts
  after_attempts-none x none d d' maps h = pure-ok (λ m _. any (text_eq x) m.0 ≡ false) h refl
  after_attempts-none x (some e) d d' maps h = cc

  attempt-IsMember :
      (n : ℕ) (last : Option Fault) (x game_id : Text) (d d' : r.Db) (maps : Maps)
      → attempt r n last game_id d ≡ (ok maps, d')
      → any (text_eq x) maps.0 ≡ true
      → IsMember x game_id (view d)
  unfolding attempt Reads
  attempt-IsMember zero last x game_id d d' maps h member =
      let no : any (text_eq x) maps.0 ≡ false = after_attempts-none x last d d' maps h in cc
  attempt-IsMember (suc n) last x game_id d d' maps h member =
      elim (after_maps n last game_id d d' maps _ refl h) [
        | inl done ↦ get_player_maps-IsMember x game_id d d' maps done member
        | inr (e, again) ↦ subst (IsMember x game_id) (Reads-get_player_maps game_id d) (
            attempt-IsMember n (some e) x game_id (get_player_maps r game_id d).1 d' maps again
              member)
      ]

  pub get_info-IsMember :
      (retries : ℕ) (x game_id : Text) (d d' : r.Db) (found : Info)
      → get_info r retries game_id d ≡ (ok found, d')
      → is_absent (find x found.players) ≡ false
      → (found.id ≡ game_id) × IsMember x game_id (view d)
  unfolding get_info get_players_in
  get_info-IsMember retries x game_id d d' found h here =
      let (ps, d1, h1, h2) =
        bind-ok (get_players_in r retries game_id)
          (λ ps. pure (record { id = game_id; players = info_map ps [] })) d h in
      let (maps, d2, h3, h4) =
        bind-ok (attempt r retries none game_id) (λ maps. scan_players maps.0 maps.1) d h1 in
      let (same, here') =
        pure-ok
          (λ i _.
            is_absent (find x i.players) ≡ false
            → (i.id ≡ game_id) × (is_absent (find x (info_map ps [])) ≡ false))
          h2 (λ k. (refl, k)) here in
      (
        same,
        elim (info_map-ids x ps [] here') [
          | inl among ↦
              attempt-IsMember retries none x game_id d d2 maps h3
                (scan_players-ids x maps.0 maps.1 d2 d1 ps h4 among)
          | inr absent ↦ cc
        ],
      )

  Reads-ending :
      (n : ℕ) (game_id : Text) (p : Result Fault Maps × r.Db)
      → ((e : Fault) → Reads r doc (attempt r n (some e) game_id))
      → view (ending n game_id p).1 ≡ view p.1
  unfolding ending Reads
  Reads-ending n game_id (ok maps, t) h = refl
  Reads-ending n game_id (err e, t) h = elim (Bool-cases (is_aborted e)) [
    | inl again ↦ rw (again) (h e t)
    | inr stopped ↦ rw (stopped) refl
  ]

  Reads-attempt :
      (n : ℕ) (last : Option Fault) (game_id : Text) → Reads r doc (attempt r n last game_id)
  unfolding attempt after_attempts ending Reads
  Reads-attempt zero none game_id d = refl
  Reads-attempt zero (some e) game_id d = refl
  Reads-attempt (suc n) last game_id d =
      Reads-ending n game_id (get_player_maps r game_id d) (λ e. Reads-attempt n (some e) game_id)
      ∙ Reads-get_player_maps game_id d

  Reads-scan_players : (ids : List Text) (hs : List Hash) → Reads r doc (scan_players ids hs)
  unfolding scan_players
  Reads-scan_players ids [] = Reads-pass r doc _ (λ d. refl)
  Reads-scan_players [] (h ∷ hs) = Reads-pass r doc _ (λ d. refl)
  Reads-scan_players (id ∷ ids) (h ∷ hs) = Reads-bind r doc _ _ (Reads-scan_player r doc id h) λ p.
      Reads-bind r doc (refuse_if (is_blank p.username) rejected) _ (Reads-refuse_if r doc _ _) λ _.
        Reads-bind r doc (scan_players ids hs) (λ rest. pure (p ∷ rest)) (Reads-scan_players ids hs)
          λ _. Reads-pass r doc _ (λ d. refl)

  pub Reads-get_players_in :
      (retries : ℕ) (game_id : Text) → Reads r doc (get_players_in r retries game_id)
  unfolding get_players_in
  Reads-get_players_in retries game_id =
      Reads-bind r doc (attempt r retries none game_id) _ (Reads-attempt retries none game_id)
        λ maps. Reads-scan_players maps.0 maps.1

  pub Reads-get_info : (retries : ℕ) (game_id : Text) → Reads r doc (get_info r retries game_id)
  unfolding get_info
  Reads-get_info retries game_id =
      Reads-bind r doc (get_players_in r retries game_id) _ (Reads-get_players_in retries game_id)
        λ _. Reads-pass r doc _ (λ d. refl)
