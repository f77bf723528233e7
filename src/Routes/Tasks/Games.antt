-- ===== src/Routes/Tasks/Games.antt =====
-- What the administrative requests about games do.
use sr_server.Prelude.{
  ℕ, ◌≡◌, sym, ap, ◌∙◌, not, some, [], ◌∷◌, find, Text, codes, text_eq, update_self, pos, eq_ℤ,
  Exec, Option, ok, pure, bind-ok, wrap-ok, ◌>>◌,
}
use sr_server.Fault.{redis, redis_error}
use sr_server.Redis.{Redis, hset, num}
use sr_server.Redis.Documented.{apply, put_fields, Documented}
use sr_server.Redis.Documented.Hashes.{find-put_field}
use sr_server.Player.Stored.{is_blank}
use sr_server.Id.{timestamp_now}
use sr_server.Game.Channels.{channel}
use sr_server.Game.Players.{games, game_exists}
use sr_server.Routes.{Stop, aborted, Answer, empty, stop_if, http_internal_error_if}
use sr_server.Routes.Ensures.{Ensures, Ensures-http_do_error_if, Ensures-stop_if}
use sr_server.Routes.Tasks.{
  Form, TaskRequest, attempted, said, store_game, handle_create_game, task_handler,
}

some-inj : {A : Type 0} {a b : A} → ◌≡◌ {A = Option A} (some a) (some b) → a ≡ b
some-inj h = cc

module _ (r : Redis) (doc : Documented r) where
  open doc use {view, precedes}

  store_game-ok :
      (now : ℕ) (game_id : Text) (d d' : r.Db) (a : Answer)
      → store_game r now game_id d ≡ (ok a, d')
      → find (codes "created_at") ((view d').hashes (channel games game_id))
        ≡ some (num (pos (timestamp_now now)))
  unfolding store_game Ensures apply put_fields
  store_game-ok now game_id d d' a h =
      let key = channel games game_id in
      let fs = (codes "created_at", num (pos (timestamp_now now))) ∷ [] in
      let cmd = hset key fs in
      let (n, d1, h1, k1) = bind-ok (http_internal_error_if (redis (r.call cmd))) _ d h in
      let (_, d2, h2, k2) =
        bind-ok (stop_if (not (eq_ℤ n (pos 1))) (aborted 500)) (λ _. pure empty) d1 k1 in
      let done = doc.call_ok cmd (
        wrap-ok (λ _. redis_error) (r.call cmd) d
          (Ensures-http_do_error_if 500 (redis (r.call cmd)) d n d1 h1)) in
      let end = (Ensures-stop_if (not (eq_ℤ n (pos 1))) (aborted 500) d1 tt d2 h2).1 in
      ap (λ p. find (codes "created_at") ((view p.1).hashes key)) (sym k2)
      ∙ ap (λ x. find (codes "created_at") ((view x).hashes key)) end
      ∙ ap (λ p. find (codes "created_at") (p.1.hashes key)) (sym done)
      ∙ ap (find (codes "created_at"))
          (update_self key (put_fields fs ((view d).hashes key)) (view d).hashes)
      ∙ find-put_field (codes "created_at") (num (pos (timestamp_now now))) ((view d).hashes key)

  -- A request to create a game that succeeds names the game, and redis then holds its created_at.
  create_game-ok :
      (now : ℕ) (form : Form) (d d' : r.Db) (a : Answer)
      → handle_create_game r now form d ≡ (ok a, d')
      → find (codes "created_at") ((view d').hashes (channel games (form (codes "gameID"))))
        ≡ some (num (pos (timestamp_now now)))
  unfolding handle_create_game
  create_game-ok now form d d' a h =
      let game_id = form (codes "gameID") in
      let (_, d1, _, k1) = bind-ok (stop_if (is_blank game_id) (aborted 400)) _ d h in
      let (x, d2, _, k2) =
        bind-ok (attempted (game_exists r game_id))
          (λ x. stop_if (said x) (aborted 400) >> store_game r now game_id) d1 k1 in
      let (_, d3, _, k3) =
        bind-ok (stop_if (said x) (aborted 400)) (λ _. store_game r now game_id) d2 k2 in
      store_game-ok now game_id d3 d' a k3

  -- A request to /delete-game that succeeds has created the game: redis holds a new created_at of
  -- the game of the form.
  pub delete_game-creates :
      (q : TaskRequest) (m : Exec r.Db Stop Answer) (d d' : r.Db) (a : Answer)
      → task_handler r (codes "/delete-game") q ≡ some m
      → m d ≡ (ok a, d')
      → find (codes "created_at") ((view d').hashes (channel games (q.form (codes "gameID"))))
        ≡ some (num (pos (timestamp_now q.now)))
  unfolding task_handler text_eq
  delete_game-creates q m d d' a served h =
      create_game-ok q.now q.form d d' a (ap (λ f. f d) (some-inj served) ∙ h)
