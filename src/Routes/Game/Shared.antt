-- ===== src/Routes/Game/Shared.antt =====
-- A request to change the share of an event.
use sr_server.Prelude.{◌≡◌, ◌≢◌, ◌⊎◌, true, [], ◌∷◌, codes, ℤ}
use sr_server.Redis.{Redis}
use sr_server.Redis.Documented.{View, Documented}
use sr_server.Session.{Session}
use sr_server.Event.{Event, get_share, set_share}
use sr_server.Event.Share.{is_share}
use sr_server.Game.EventManager.Updating.{swapped}
use sr_server.Routes.{Answer, Request}
use sr_server.Routes.Ensures.{Ensures}
use sr_server.Routes.Game.Owned.{Owns, Asks}

module _ (r : Redis) (doc : Documented r) where
  open doc use {view, precedes}

  -- The event has the share already and the data is as it was, or it is replaced.
  abbrev pub Reshared : Session → Event → ℤ → View → View → Type 0
  Reshared sess evt share v v' =
      ((get_share evt ≡ share) × (v' ≡ v))
      ⊎ ((get_share evt ≢ share)
          × (v'.zsets ≡ swapped precedes sess.game_id (set_share evt share) v))

  -- What a change of share that succeeds comes with and does.
  unfoldable pub ShareChanged : Request → r.Db → Answer → r.Db → Type 0
  ShareChanged request d a d' =
      (sess : Session) × (id share : ℤ) × (evt : Event) × Asks r d (codes "id" ∷ codes "share" ∷ [])
        request sess id
      × (is_share share ≡ true)
      × Owns (view d) sess id evt
      × Reshared sess evt share (view d) (view d')
