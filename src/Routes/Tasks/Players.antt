-- ===== src/Routes/Tasks/Players.antt =====
-- What the administrative requests about players do.
use sr_server.Prelude.{
  ◌≡◌, sym, ap, subst, ◌∙◌, inl, inr, Bool, Bool-cases, true, false, ◌||◌, some, List, [], ◌∷◌,
  ◌++◌, any, find, Text, codes, text_eq, text_eq_refl, update_self, ℤ, pos, Result, ok, err, pure,
  bind-ok, wrap-ok, arith, ◌>>◌,
}
use sr_server.Json.{Json}
use sr_server.Fault.{Fault, redis, redis_error, expect, expect-state}
use sr_server.Redis.{Redis, Command, hset, sadd, publish, text}
use sr_server.Redis.Documented.{View, run, apply, Documented}
use sr_server.Redis.Transaction.{transaction, transaction-ok}
use sr_server.Player.{Player}
use sr_server.Player.Stored.{
  player_prefix, player_ids, is_blank, flatten, get_by_username, or_not_found, is_none,
}
use sr_server.Player.Stored
use sr_server.Update.{player_add, player_update_json}
use sr_server.Game.EventManager.{posted}
use sr_server.Game.Channels.{channel, updates}
use sr_server.Game.Players.{players_in, add_player}
use sr_server.Auth.Members.{get_by_username-id}
use sr_server.Routes.{aborted, Answer, empty, stop_if, http_internal_error_if}
use sr_server.Routes.Ensures.{Ensures, Ensures-http_do_error_if, Ensures-stop_if}
use sr_server.Routes.Tasks.{Form, player_named, named, handle_add_to_game}

-- The username leads to the player, whose hash is all that redis holds at its key.
abbrev pub IsStored : Player → View → Type 0
IsStored p v =
    (find p.username (v.hashes player_ids) ≡ some (text p.id))
    × (v.hashes (player_prefix ++ p.id) ≡ flatten p)
    × (is_blank p.id ≡ false)

commands : Player → List Command
commands p =
    hset player_ids ((p.username, text p.id) ∷ []) ∷ hset (player_prefix ++ p.id) (flatten p) ∷ []

named-ok :
    {S : Type 0} (q : Result Fault Player × S) (p : Player) (t : S)
    → named q.0 q.1 ≡ (ok p, t)
    → q ≡ (ok p, t)
named-ok (ok x, s) p t h = cc
named-ok (err e, s) p t h = ground arith

member_after :
    (precedes : Json → Json → Bool) (game_id : Text) (p : Player) (v : View)
    → any (text_eq p.id) (
        (apply precedes (sadd (channel players_in game_id) p.id) v).1.sets
          (channel players_in game_id))
      ≡ true
unfolding apply
member_after precedes game_id p v =
    let key = channel players_in game_id in
    elim (Bool-cases (any (text_eq p.id) (v.sets key))) [
      | inl there ↦ rw (there) (there)
      | inr new ↦ rw (new) (
          ap (any (text_eq p.id)) (update_self key (p.id ∷ v.sets key) v.sets)
          ∙ ap (λ b. b || any (text_eq p.id) (v.sets key)) (text_eq_refl p.id))
    ]

module _ (r : Redis) (doc : Documented r) where
  open doc use {view, precedes}

  -- The player that handleCreatePlayer makes of a form.
  abbrev pub made : Text → ℤ → Form → Player
  made player_id hue form = record {
    id = player_id;
    name = form (codes "name");
    hue = hue;
    username = form (codes "uname");
    connections = pos 0;
    online_mode = pos 0;
  }

  -- A request to add a player to a game that succeeds is for a username that redis maps to the ID of
  -- a player, and that ID is then in the game's set of players.
  pub handle_add_to_game-ok :
      (form : Form) (d d' : r.Db) (a : Answer)
      → handle_add_to_game r form d ≡ (ok a, d')
      → (p : Player) × (find (form (codes "uname")) ((view d).hashes player_ids) ≡ some (text p.id))
        × (any (text_eq p.id) ((view d').sets (channel players_in (form (codes "game")))) ≡ true)
  unfolding handle_add_to_game player_named add_player Ensures run apply
  handle_add_to_game-ok form d d' a h =
      let name = form (codes "uname") in
      let game_id = form (codes "game") in
      let (_, d1, h1, k1) = bind-ok (stop_if (is_blank name) (aborted 400)) _ d h in
      let (_, d2, h2, k2) = bind-ok (stop_if (is_blank game_id) (aborted 400)) _ d1 k1 in
      let (p, d3, h3, k3) =
        bind-ok (player_named r name)
          (λ p. http_internal_error_if (add_player r game_id p) >> pure empty) d2 k2 in
      let (_, d4, h4, k4) =
        bind-ok (http_internal_error_if (add_player r game_id p)) (λ _. pure empty) d3 k3 in
      let cmds =
        sadd (channel players_in game_id) p.id
        ∷ publish (channel updates game_id) (player_update_json (player_add p))
        ∷ [] in
      let (ns, d5, h5, k5) =
        bind-ok (redis (transaction r cmds)) (λ ns. expect (posted ns)) d3
          (Ensures-http_do_error_if 500 (add_player r game_id p) d3 tt d4 h4) in
      let (_, same1) = Ensures-stop_if (is_blank name) (aborted 400) d tt d1 h1 in
      let (_, same2) = Ensures-stop_if (is_blank game_id) (aborted 400) d1 tt d2 h2 in
      let (of_name, _) =
        get_by_username-id r doc name d2 d3 p (named-ok (get_by_username r name d2) p d3 h3) in
      let done =
        transaction-ok r doc cmds d3 d5 (wrap-ok (λ _. redis_error) (transaction r cmds) d3 h5) in
      let end : view d5 ≡ view d' =
        ap view (expect-state (posted ns) d5 d4 k5 ∙ ap (λ q. q.1) k4) in
      (
        p,
        ap (λ x. find name ((view x).hashes player_ids)) (sym (same2 ∙ same1)) ∙ of_name,
        subst (λ v. any (text_eq p.id) (v.sets (channel players_in game_id)) ≡ true)
            (ap (λ q. q.1) done ∙ end) (member_after precedes game_id p (view d3)),
      )
