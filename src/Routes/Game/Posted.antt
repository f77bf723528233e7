-- ===== src/Routes/Game/Posted.antt =====
-- The requests to roll dice post one event with the dice that the channel gives.
use sr_server.Prelude.{
  not-false, ℕ, ◌≡◌, ◌⊎◌, refl, sym, ap, ◌∙◌, true, false, some, List, map, ℤ, pos, pos_part, ◌≤ℤ◌,
  ltb_ℤ, ok, arith, Bool-cases, inl, inr,
}
use sr_server.Dice.{Explosion, Filled, exploding_sixes, fill_rolls}
use sr_server.Redis.{Redis}
use sr_server.Redis.Documented.{Documented}
use sr_server.Player.{Player}
use sr_server.Session.{Session, get_player}
use sr_server.Event.{Event, roll, edge_roll, for_roll, for_edge_roll}
use sr_server.Event.Share.{is_share}
use sr_server.Game.EventManager.Posting.{added, post_event-ok}
use sr_server.Routes.{Answer, Request, request_session, received}
use sr_server.Routes.Quiet.{Reads}
use sr_server.Routes.Steps.{Reads-read_roll_request}
use sr_server.Routes.Ensures.{
  Ensures, Ensures-bind, Ensures-received, Ensures-stop_if, Ensures-write, Ensures-request_session,
  Ensures-get_player, Ensures-answer,
}
use sr_server.Routes.Rolls.{RollRequest, read_roll_request, rolled, handle_roll}

-- The event has the dice that the channel gives for the request: the first ones, or, with edge, the
-- rounds of ExplodingSixes.
abbrev pub HasDice : ℕ → List ℕ → Player → RollRequest → Event → Type 0
HasDice now chan plr req evt =
    ((req.edge ≡ true)
      × ((e : Explosion) × (exploding_sixes (pos_part req.count) chan ≡ some e)
          × (evt
              ≡ edge_roll (
                  for_edge_roll now plr req.share req.title (map (map pos) e.results)
                    req.glitchy))))
    ⊎ ((req.edge ≡ false)
        × ((f : Filled) × (fill_rolls (pos_part req.count) chan ≡ some f)
            × (evt ≡ roll (for_roll now plr req.share req.title (map pos f.rolls) req.glitchy))))

in_bounds : (a b : ℤ) → ltb_ℤ a b ≡ false → b ≤ℤ a
in_bounds a b h = ground arith

module _ (r : Redis) (doc : Documented r) where
  open doc use {view, precedes}

  Ensures-rolled :
      (now : ℕ) (chan : List ℕ) (plr : Player) (req : RollRequest) (d : r.Db)
      → Ensures (rolled now chan plr req) d (λ evt t. HasDice now chan plr req evt × (t ≡ d))
  unfolding rolled
  Ensures-rolled now chan plr req d = elim (Bool-cases req.edge) [
    | inl edge ↦ rw (edge) (
        Ensures-bind (received (exploding_sixes (pos_part req.count) chan)) _ d _ _
          (Ensures-received (exploding_sixes (pos_part req.count) chan) d)
          λ e t (found, same). Ensures-answer _ t _ (inl (refl, (e, found, refl)), same))
    | inr plain ↦ rw (plain) (
        Ensures-bind (received (fill_rolls (pos_part req.count) chan)) _ d _ _
          (Ensures-received (fill_rolls (pos_part req.count) chan) d)
          λ f t (found, same). Ensures-answer _ t _ (inr (refl, (f, found, refl)), same))
  ]

  Ensures-read_roll_request :
      (request : Request) (d : r.Db)
      → Ensures
          (read_roll_request request)
          d
          (λ req t. ((read_roll_request request d).0 ≡ ok req) × (view t ≡ view d))
  unfolding Ensures Reads
  Ensures-read_roll_request request d req t h =
      (ap (λ p. p.0) h, ap (λ p. view p.1) (sym h) ∙ Reads-read_roll_request r doc request d)

  -- What a roll that succeeds comes with and does.
  unfoldable pub RollPosted : ℤ → ℕ → List ℕ → Request → r.Db → Answer → r.Db → Type 0
  RollPosted most now chan request d a d' =
      (sess : Session) × (req : RollRequest) × (plr : Player) × (evt : Event) × (d1 d2 : r.Db)
      × ((request_session r request d).0 ≡ ok sess)
      × ((read_roll_request request d1).0 ≡ ok req)
      × (pos 1 ≤ℤ req.count)
      × (req.count ≤ℤ most)
      × (is_share req.share ≡ true)
      × ((get_player r sess d2).0 ≡ ok plr)
      × (view d2 ≡ view d)
      × HasDice now chan plr req evt
      × ((view d').zsets ≡ added precedes sess.game_id evt (view d))

  Ensures-handle_roll :
      (most : ℤ) (now : ℕ) (chan : List ℕ) (request : Request) (d : r.Db)
      → Ensures (handle_roll r most now chan request) d (RollPosted most now chan request d)
  unfolding handle_roll RollPosted
  Ensures-handle_roll most now chan request d =
      Ensures-bind _ _ d _ _ (Ensures-request_session r doc request d) λ sess d1 (s1, v1).
        Ensures-bind (read_roll_request request) _ d1 _ _ (Ensures-read_roll_request request d1)
          λ req d2 (s2, v2). Ensures-bind _ _ d2 _ _ (Ensures-stop_if _ _ d2) λ _ d3 (s3, v3).
            Ensures-bind _ _ d3 _ _ (Ensures-stop_if _ _ d3) λ _ d4 (s4, v4).
              Ensures-bind _ _ d4 _ _ (Ensures-stop_if _ _ d4) λ _ d5 (s5, v5).
                Ensures-bind _ _ d5 _ _ (Ensures-get_player r doc 500 sess d5) λ plr d6 (s6, v6).
                  Ensures-bind (rolled now chan plr req) _ d6 _ _
                    (Ensures-rolled now chan plr req d6)
                    λ evt d7 (s7, v7). Ensures-write _ _ d7 _ λ _ d8 s8.
                      let e5 : view d5 ≡ view d = ap view v5 ∙ ap view v4 ∙ ap view v3 ∙ v2 ∙ v1 in
                      let e7 : view d7 ≡ view d = ap view v7 ∙ v6 ∙ e5 in
                      let (_, _, _, zsets, _) = post_event-ok r doc sess.game_id evt d7 d8 s8 in
                      (
                        sess,
                        req,
                        plr,
                        evt,
                        d1,
                        d5,
                        s1,
                        s2,
                        in_bounds req.count (pos 1) s3,
                        in_bounds most req.count s4,
                        not-false _ s5,
                        s6,
                        e5,
                        s7,
                        zsets ∙ ap (added precedes sess.game_id evt) e7,
                      )

  -- A request to roll that succeeds comes with a session, a count between 1 and MaxSingleRoll and a
  -- valid share. One event of the session's player has joined the history of the session's game,
  -- with the dice that the channel gives, and no other history has changed.
  pub handle_roll-ok :
      (most : ℤ) (now : ℕ) (chan : List ℕ) (request : Request) (d d' : r.Db) (a : Answer)
      → handle_roll r most now chan request d ≡ (ok a, d')
      → RollPosted most now chan request d a d'
  unfolding Ensures
  handle_roll-ok most now chan request d d' a h = Ensures-handle_roll most now chan request d a d' h
