-- ===== src/Game/EventManager/Posting.antt =====
-- PostEvent puts one event into the history and publishes it.
use sr_server.Prelude.{
  ◌≡◌, ap, ◌∙◌, ◌⊎◌, inl, inr, Bool, true, false, Bool-cases, some, List, [], ◌∷◌, any, update,
  Text, ok, err, arith,
}
use sr_server.Json.{Json, json_eq}
use sr_server.Fault.{Fault}
use sr_server.Redis.{Redis, Command, zadd_nx, publish}
use sr_server.Redis.Documented.{View, Entry, insert_entry, apply, run, Documented}
use sr_server.Event.{Event, get_id}
use sr_server.Event.Codec.{marshal}
use sr_server.Game.Channels.{channel, history, event_channel}
use sr_server.Game.EventManager.{post_event, posted}
use sr_server.Game.EventManager.Effects.{announced-ok, announced-err}

-- The entry of an event.
abbrev pub entry : Event → Entry
entry evt = record { score = get_id evt; member = marshal evt }

abbrev pub has_text : Json → List Entry → Bool
has_text m = any (λ e. json_eq e.member m)

abbrev post_commands : Text → Event → Text → List Command
post_commands game_id evt c =
    zadd_nx (channel history game_id) (get_id evt) (marshal evt) ∷ publish c (marshal evt) ∷ []

-- The sorted sets with the event put into the history of its game.
abbrev pub added : (Json → Json → Bool) → Text → Event → View → Text → List Entry
added precedes game_id evt v =
    let key = channel history game_id in
    update key (insert_entry precedes (entry evt) (v.zsets key)) v.zsets

module _ (precedes : Json → Json → Bool) (game_id : Text) (evt : Event) (c : Text) (v : View) where
  abbrev after : View
  after = (run precedes (post_commands game_id evt c) v).1

  abbrev key : Text
  key = channel history game_id

  posted-new :
      posted (run precedes (post_commands game_id evt c) v).0 ≡ true
      → has_text (marshal evt) (v.zsets key) ≡ false
  unfolding run apply
  posted-new h = ground arith

  added-zsets :
      has_text (marshal evt) (v.zsets key) ≡ false → after.zsets ≡ added precedes game_id evt v
  unfolding run apply
  added-zsets h = rw (h, after)

  zsets-after : (after.zsets ≡ v.zsets) ⊎ (after.zsets ≡ added precedes game_id evt v)
  unfolding run apply
  zsets-after = elim (Bool-cases (has_text (marshal evt) (v.zsets key))) [
    | inl old ↦ inl (rw (old, after))
    | inr new ↦ inr (rw (new, after))
  ]

  published-after : after.published ≡ (c, marshal evt) ∷ v.published
  unfolding run apply
  published-after = elim (Bool-cases (has_text (marshal evt) (v.zsets key))) [
    | inl old ↦ rw (old, after)
    | inr new ↦ rw (new, after)
  ]

module _ (r : Redis) (doc : Documented r) (game_id : Text) (evt : Event) (d d' : r.Db) where
  open doc use {view, precedes}

  -- A post that succeeds found no event of the same text in the game's history: it has put the
  -- event there by its ID and changed no other history, and it has published the event once, on
  -- the event's channel.
  pub post_event-ok :
      post_event r game_id evt d ≡ (ok tt, d')
      → (c : Text) × (event_channel game_id evt ≡ some c)
        × (has_text (marshal evt) ((view d).zsets (channel history game_id)) ≡ false)
        × ((view d').zsets ≡ added precedes game_id evt (view d))
        × ((view d').published ≡ (c, marshal evt) ∷ (view d).published)
  unfolding post_event
  post_event-ok h =
      let (c, named, fine, same) =
        announced-ok r doc (event_channel game_id evt) (post_commands game_id evt) posted d d' h in
      let new = posted-new precedes game_id evt c (view d) fine in
      (
        c,
        named,
        new,
        ap (λ w. w.zsets) same ∙ added-zsets precedes game_id evt c (view d) new,
        ap (λ w. w.published) same ∙ published-after precedes game_id evt c (view d),
      )

  -- A post that ends in an error has changed no history, or has put the event into the history of
  -- its game and done nothing else to any.
  post_event-err :
      {e : Fault}
      → post_event r game_id evt d ≡ (err e, d')
      → ((view d').zsets ≡ (view d).zsets) ⊎ ((view d').zsets ≡ added precedes game_id evt (view d))
  unfolding post_event
  post_event-err h =
      elim (announced-err r doc (event_channel game_id evt) (post_commands game_id evt) posted d d'
        h) [
          | inl same ↦ inl (ap (λ w. w.zsets) same)
          | inr (c, _, same) ↦ elim (zsets-after precedes game_id evt c (view d)) [
            | inl kept ↦ inl (ap (λ w. w.zsets) same ∙ kept)
            | inr new ↦ inr (ap (λ w. w.zsets) same ∙ new)
          ]
        ]
