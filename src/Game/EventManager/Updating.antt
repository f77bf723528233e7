-- ===== src/Game/EventManager/Updating.antt =====
-- UpdateEvent replaces the one event of an ID; UpdateEventShare takes it out and posts it anew.
use sr_server.Prelude.{
  ◌≡◌, ◌≢◌, refl, sym, ap, subst, ◌∙◌, ◌⊎◌, inl, inr, Bool, true, false, Bool-cases, some, List, [],
  ◌∷◌, keep, length, update, update_self, Text, ℤ, ok, err, arith, eq_ℤ, eq_ℤ_iff, bind-ok,
}
use sr_server.Json.{Json}
use sr_server.Fault.{Fault, redis_error, rejected, refuse_if}
use sr_server.Redis.{Redis, Command, zadd_nx, zremrangebyscore, publish}
use sr_server.Redis.Documented.{View, Entry, in_range, insert_entry, apply, run, Documented}
use sr_server.Redis.Documented.SortedSets.{keep-insert_entry_only, keep-keep-not, in_range_self}
use sr_server.Event.{
  Event, roll, edge_roll, reroll, initiative_roll, player_join, get_id, get_share, set_share,
}
use sr_server.Event.Codec.{marshal}
use sr_server.Event.Events.{get_by_id}
use sr_server.Event.Events.Laws.{get_by_id_lem, newest_of}
use sr_server.Update.{EventUpdate, event_update_json}
use sr_server.Game.Channels.{channel, history, event_channel, update_channel}
use sr_server.Game.EventManager.{delete_event, update_event, update_event_share, replaced}
use sr_server.Game.EventManager.Posting
use sr_server.Game.EventManager.Deleting
use sr_server.Game.EventManager.Effects.{announced-ok}
use sr_server.Game.EventManager.Posting.{entry, has_text, added}
use sr_server.Game.EventManager.Deleting.{of_id, others, removed, deletion}

abbrev update_commands : Text → Event → EventUpdate → Text → List Command
update_commands game_id evt u c =
    zremrangebyscore (channel history game_id) (get_id evt) (get_id evt)
    ∷ zadd_nx (channel history game_id) (get_id evt) (marshal evt)
    ∷ publish c (event_update_json u)
    ∷ []

-- The histories with the event in the place of what had its ID.
abbrev pub swapped : (Json → Json → Bool) → Text → Event → View → Text → List Entry
swapped precedes game_id evt v =
    let key = channel history game_id in
    update key (insert_entry precedes (entry evt) (removed game_id (get_id evt) v key))
      (removed game_id (get_id evt) v)

module _ (precedes : Json → Json → Bool) (game_id : Text) (evt : Event) (u : EventUpdate) (c : Text)
    (v : View) where
  update-ok :
      replaced (run precedes (update_commands game_id evt u c) v).0 ≡ true
      → (length (of_id game_id (get_id evt) v) ≡ 1)
        × ((run precedes (update_commands game_id evt u c) v).1.zsets
            ≡ swapped precedes game_id evt v)
        × ((run precedes (update_commands game_id evt u c) v).1.published
            ≡ (c, event_update_json u) ∷ v.published)
  unfolding run apply
  update-ok h =
      elim (Bool-cases
        (has_text (marshal evt) (removed game_id (get_id evt) v (channel history game_id)))) [
          | inl old ↦ absurd (ground arith)
          | inr new ↦ (ground arith, rw new, rw new)
        ]

get_id-set_share : (evt : Event) (share : ℤ) → get_id evt ≡ get_id (set_share evt share)
get_id-set_share (roll e) share = refl
get_id-set_share (edge_roll e) share = refl
get_id-set_share (reroll e) share = refl
get_id-set_share (initiative_roll e) share = refl
get_id-set_share (player_join c) share = refl

-- What is posted after the deletion stands where the event stood.
reposted :
    (precedes : Json → Json → Bool) (game_id : Text) (evt : Event) (share : ℤ) (v w : View)
    → w.zsets ≡ removed game_id (get_id evt) v
    → added precedes game_id (set_share evt share) w
      ≡ swapped precedes game_id (set_share evt share) v
reposted precedes game_id evt share v w h =
    let key = channel history game_id in
    let put : (Text → List Entry) → Text → List Entry =
      λ f. update key (insert_entry precedes (entry (set_share evt share)) (f key)) f in
    ap put h ∙ ap (λ id. put (removed game_id id v)) (get_id-set_share evt share)

module _ (r : Redis) (doc : Documented r) (game_id : Text) (evt : Event) (d d' : r.Db) where
  open doc use {view, precedes}

  -- An update that succeeds found exactly one event of the ID: the history of the game has the new
  -- event in its place and every other entry as it was, no other history has changed, and the
  -- update is published once, on the new event's update channel.
  pub update_event-ok :
      (u : EventUpdate)
      → update_event r game_id evt u d ≡ (ok tt, d')
      → (c : Text) × (update_channel game_id evt ≡ some c)
        × (length (of_id game_id (get_id evt) (view d)) ≡ 1)
        × ((view d').zsets ≡ swapped precedes game_id evt (view d))
        × ((view d').published ≡ (c, event_update_json u) ∷ (view d).published)
  unfolding update_event
  update_event-ok u h =
      let (c, named, fine, same) =
        announced-ok r doc (update_channel game_id evt) (update_commands game_id evt u) replaced d
          d' h in
      let (one, zsets, published) = update-ok precedes game_id evt u c (view d) fine in
      (c, named, one, ap (λ w. w.zsets) same ∙ zsets, ap (λ w. w.published) same ∙ published)

  -- After an update that succeeds GetByID finds the new event, and nothing else, unless redis fails.
  get_by_id-update_event :
      (u : EventUpdate)
      → update_event r game_id evt u d ≡ (ok tt, d')
      → ((get_by_id r game_id (get_id evt) d').0 ≡ err redis_error)
        ⊎ ((get_by_id r game_id (get_id evt) d').0 ≡ ok (marshal evt))
  get_by_id-update_event u h =
      let (_, _, _, zsets, _) = update_event-ok u h in
      let id = get_id evt in
      let key = channel history game_id in
      let rest = others game_id id (view d) in
      let here : (view d').zsets key ≡ insert_entry precedes (entry evt) rest =
        ap (λ f. f key) zsets
        ∙ update_self key _ (removed game_id id (view d))
        ∙ ap (insert_entry precedes (entry evt)) (update_self key rest (view d).zsets) in
      let one =
        keep-insert_entry_only precedes (in_range id id) (entry evt) rest
          (in_range_self id (marshal evt)) (keep-keep-not (in_range id id) ((view d).zsets key)) in
      elim ((get_by_id_lem r doc game_id id d').1) [
        | inl failed ↦ inl failed
        | inr found ↦
            inr (found ∙ ap (λ es. newest_of (keep (in_range id id) es)) here ∙ ap newest_of one)
      ]

  refused : (b : Bool) (e : Fault) {t : r.Db} → refuse_if b e d ≡ (ok tt, t) → (b ≡ false) × (d ≡ t)
  refused true e h = cc
  refused false e h = (refl, cc)

  -- A change of share that succeeds was a change: it has replaced the event by the same event with
  -- the new share, leaving every other entry as it was, and it has published the deletion where the
  -- old share says and then the event where the new share says.
  pub update_event_share-ok :
      (share : ℤ)
      → update_event_share r game_id evt share d ≡ (ok tt, d')
      → (c c' : Text) × (get_share evt ≢ share)
        × (update_channel game_id evt ≡ some c)
        × (event_channel game_id (set_share evt share) ≡ some c')
        × (length (of_id game_id (get_id evt) (view d)) ≡ 1)
        × ((view d').zsets ≡ swapped precedes game_id (set_share evt share) (view d))
        × ((view d').published
            ≡ (c', marshal (set_share evt share)) ∷ (c, deletion evt) ∷ (view d).published)
  unfolding update_event_share
  update_event_share-ok share h =
      let (_, t, asked, later) = bind-ok (refuse_if (eq_ℤ (get_share evt) share) rejected) _ d h in
      let (new, same) = refused (eq_ℤ (get_share evt) share) rejected asked in
      let (_, u, deleted, post) = bind-ok (delete_event r game_id evt) _ t later in
      let gone = subst (λ x. delete_event r game_id evt x ≡ (ok tt, u)) (sym same) deleted in
      let (c, named, one, zsets, published) = Deleting.delete_event-ok r doc game_id evt d u gone in
      let (c', named', _, zsets', published') =
        Posting.post_event-ok r doc game_id (set_share evt share) u d' post in
      (
        c,
        c',
        λ e. ground (arith, eq_ℤ_iff (get_share evt) share),
        named,
        named',
        one,
        zsets' ∙ reposted precedes game_id evt share (view d) (view u) zsets,
        published' ∙ ap (◌∷◌ (c', marshal (set_share evt share))) published,
      )
