-- ===== src/Routes/Subscription/Balance.antt =====
-- A subscription undoes what it has done to the player and the session.
use sr_server.Prelude.{◌≡◌, ◌⊎◌, false, some, none, ◌++◌, pos, negsuc, ◌+ℤ◌, Exec, Result, ok, err}
use sr_server.Fault.{Fault}
use sr_server.Redis.{Redis}
use sr_server.Redis.Documented.{View, Documented}
use sr_server.Session.{Session, Ttls, ttl, sessions, expire_session}
use sr_server.Game.Players.{update_player_connections}
use sr_server.Game.Players.Connections.{stored_count}
use sr_server.Routes.{Stop, Answer, Request, request_param_session}
use sr_server.Routes.Ensures.{Ensures}

-- The action has reported an error.
abbrev Failed : {S A : Type 0} → Result Fault A × S → Type 0
Failed p = (e : Fault) × (p.0 ≡ err e)

module _ (r : Redis) (doc : Documented r) (c : Ttls) where
  open doc use {view}

  -- The player counts as connected once more while the loop runs, and the session does not expire.
  abbrev pub Open : Session → View → View → Type 0
  Open sess v v' =
      (stored_count sess.player_id v' ≡ stored_count sess.player_id v +ℤ pos 1)
      × (v'.ttls (sessions ++ sess.id) ≡ none)

  -- After the loop: redis fails in a deferred call, or the player counts as connected once less,
  -- and the session expires again, unless it is gone.
  abbrev pub Closed : Session → r.Db → r.Db → Type 0
  Closed sess d d' =
      let left = update_player_connections r sess.game_id sess.player_id (negsuc 0) d in
      let expired = expire_session r c sess left.1 in
      (expired.1 ≡ d')
      × (Failed left
          ⊎ Failed expired
          ⊎ ((stored_count sess.player_id (view d')
                ≡ stored_count sess.player_id (view d) +ℤ negsuc 0)
              × ((expired.0 ≡ ok false)
                  ⊎ ((view d').ttls (sessions ++ sess.id) ≡ some (pos (ttl c sess))))))

  -- What a subscription that ends well has done.
  unfoldable pub Subscribed : Request → Exec r.Db Stop Answer → r.Db → Answer → r.Db → Type 0
  Subscribed request loop d a d' =
      (sess : Session) × (d1 : r.Db) × (d2 : r.Db) × ((request_param_session r request d).0
        ≡ ok sess)
      × Open sess (view d) (view d1)
      × (loop d1 ≡ (ok a, d2))
      × Closed sess d2 d'
