-- ===== src/Game/EventManager/Deleting.antt =====
-- DeleteEvent takes the one event of an ID out of the history, and UpdateEvent replaces it.
use sr_server.Prelude.{
  ◌≤◌, ◌≡◌, ◌≢◌, refl, ap, ◌∙◌, ◌⊎◌, inl, inr, Bool, true, not, some, List, [], ◌∷◌, keep, length,
  update, update_self, Text, ℤ, Result, ok, err, arith,
}
use sr_server.Json.{Json}
use sr_server.Fault.{Fault, redis_error, rejected}
use sr_server.Redis.{Redis, Command, zremrangebyscore, publish}
use sr_server.Redis.Documented.{View, Entry, in_range, apply, run, Documented}
use sr_server.Redis.Documented.SortedSets.{keep-keep-not}
use sr_server.Event.{Event, get_id}
use sr_server.Event.Events.{get_by_id}
use sr_server.Event.Events.Laws.{get_by_id_lem, newest_of}
use sr_server.Update.{event_update_json, for_event_delete}
use sr_server.Game.Channels.{channel, history, update_channel}
use sr_server.Game.EventManager.{delete_event, posted}
use sr_server.Game.EventManager.Effects.{announced-ok, announced-err}

-- The entries of an ID in the history of a game, and the other entries.
abbrev pub of_id : Text → ℤ → View → List Entry
of_id game_id id v = keep (in_range id id) (v.zsets (channel history game_id))

abbrev pub others : Text → ℤ → View → List Entry
others game_id id v = keep (λ e. not (in_range id id e)) (v.zsets (channel history game_id))

abbrev pub removed : Text → ℤ → View → Text → List Entry
removed game_id id v = update (channel history game_id) (others game_id id v) v.zsets

abbrev pub deletion : Event → Json
deletion evt = event_update_json (for_event_delete (get_id evt))

abbrev delete_commands : Text → Event → Text → List Command
delete_commands game_id evt c =
    zremrangebyscore (channel history game_id) (get_id evt) (get_id evt)
    ∷ publish c (deletion evt)
    ∷ []

module _ (precedes : Json → Json → Bool) (game_id : Text) (evt : Event) (c : Text) (v : View) where
  posted-one :
      posted (run precedes (delete_commands game_id evt c) v).0 ≡ true
      → length (of_id game_id (get_id evt) v) ≡ 1
  unfolding run apply
  posted-one h = ground arith

  delete-zsets :
      (run precedes (delete_commands game_id evt c) v).1.zsets ≡ removed game_id (get_id evt) v
  unfolding run apply
  delete-zsets = refl

  delete-published :
      (run precedes (delete_commands game_id evt c) v).1.published ≡ (c, deletion evt) ∷ v.published
  unfolding run apply
  delete-published = refl

module _ (r : Redis) (doc : Documented r) (game_id : Text) (evt : Event) (d d' : r.Db) where
  open doc use {view, precedes}

  -- A deletion that succeeds found exactly one event of the ID: it has taken that event out and
  -- left every other entry of every history in its place, and it has published the deletion once,
  -- on the event's update channel.
  pub delete_event-ok :
      delete_event r game_id evt d ≡ (ok tt, d')
      → (c : Text) × (update_channel game_id evt ≡ some c)
        × (length (of_id game_id (get_id evt) (view d)) ≡ 1)
        × ((view d').zsets ≡ removed game_id (get_id evt) (view d))
        × ((view d').published ≡ (c, deletion evt) ∷ (view d).published)
  unfolding delete_event
  delete_event-ok h =
      let (c, named, fine, same) =
        announced-ok r doc (update_channel game_id evt) (delete_commands game_id evt) posted d d'
          h in
      (
        c,
        named,
        posted-one precedes game_id evt c (view d) fine,
        ap (λ w. w.zsets) same ∙ delete-zsets precedes game_id evt c (view d),
        ap (λ w. w.published) same ∙ delete-published precedes game_id evt c (view d),
      )

  pub delete_event-err :
      {e : Fault}
      → delete_event r game_id evt d ≡ (err e, d')
      → ((view d').zsets ≡ (view d).zsets)
        ⊎ ((view d').zsets ≡ removed game_id (get_id evt) (view d))
  unfolding delete_event
  delete_event-err h =
      elim (announced-err r doc (update_channel game_id evt) (delete_commands game_id evt) posted d
        d' h) [
          | inl same ↦ inl (ap (λ w. w.zsets) same)
          | inr (c, _, same) ↦
              inr (ap (λ w. w.zsets) same ∙ delete-zsets precedes game_id evt c (view d))
        ]

  no_longer_there :
      (view d').zsets ≡ removed game_id (get_id evt) (view d)
      → of_id game_id (get_id evt) (view d') ≡ []
  no_longer_there zsets =
      let key = channel history game_id in
      ap (λ f. keep (in_range (get_id evt) (get_id evt)) (f key)) zsets
      ∙ ap (keep (in_range (get_id evt) (get_id evt)))
          (update_self key (others game_id (get_id evt) (view d)) (view d).zsets)
      ∙ keep-keep-not (in_range (get_id evt) (get_id evt)) ((view d).zsets key)

  -- After a deletion that succeeds GetByID does not find the ID, and says so unless redis fails.
  get_by_id-delete_event :
      delete_event r game_id evt d ≡ (ok tt, d')
      → ((get_by_id r game_id (get_id evt) d').0 ≡ err redis_error)
        ⊎ ((get_by_id r game_id (get_id evt) d').0 ≡ err rejected)
  get_by_id-delete_event h =
      let (_, _, _, zsets, _) = delete_event-ok h in
      elim ((get_by_id_lem r doc game_id (get_id evt) d').1) [
        | inl failed ↦ inl failed
        | inr found ↦ inr (found ∙ ap newest_of (no_longer_there zsets))
      ]

  -- Where two events share an ID, as events of one millisecond do, a deletion always reports an
  -- error; and yet it either changes no history or takes both events out.
  pub delete_event_shared_id :
      (res : Result Fault (Unit {0}))
      → 2 ≤ length (of_id game_id (get_id evt) (view d))
      → delete_event r game_id evt d ≡ (res, d')
      → (res ≢ ok tt)
        × (((view d').zsets ≡ (view d).zsets) ⊎ (of_id game_id (get_id evt) (view d') ≡ []))
  delete_event_shared_id (ok _) two h = absurd (omega (arith, (delete_event-ok h).2))
  delete_event_shared_id (err e) two h = (
    cc,
    elim (delete_event-err h) [ inl same ↦ inl same | inr gone ↦ inr (no_longer_there gone) ],
  )
