-- ===== src/Task/Finished.antt =====
-- The migration of a game comes to its end.
use sr_server.Prelude.{
  option_cases, some-inj, ℕ, zero, suc, ◌≡◌, ◌≢◌, ◌<◌, refl, sym, ap, subst, ◌∙◌, inl, inr, Option,
  none, some, List, [], ◌∷◌, keep, take, length, All, Text, ℤ, ok, err, bind-ok, wrap-ok,
}
use mathlib.Core.List.{reverse}
use sr_server.Fault.{redis_error, redis, or_panic, expect-state}
use sr_server.Redis.{Redis}
use sr_server.Redis.Documented.{Entry, Documented}
use sr_server.Redis.Transaction.{transaction, transaction-ok}
use sr_server.Id.{new_event_id}
use sr_server.Session.Laws.{or_panic-ok}
use sr_server.Event.{Event, roll, edge_roll, reroll, initiative_roll, player_join, get_id}
use sr_server.Event.Codec.{IsTyped}
use sr_server.Event.Events.{replacements, bulk_update}
use sr_server.Game.Channels.{channel, history}
use sr_server.Game.Players.{get_players_in}
use sr_server.Game.Players.Members.{Reads-get_players_in}
use sr_server.Routes.Quiet.{Reads}
use sr_server.Task.{
  Names, Migration, parse_all, buffer_size, player_of, with_event, set_player_id, migrate_batch,
  by_username, migrate, handle_game_migration_task,
}
use sr_server.Task.Batches.{Rises, IsReadable, up_to, texts_of, take-map, All-keep, All-reverse_aux}
use sr_server.Task.Streaming.{entries, IsGood, batch_at, Keeps, stream_read_events-ends}
use sr_server.Task.Rewriting.{Has, Rises-scores, count-scores}
use sr_server.Task.Ending.{Known, Kept, swap_all, swap_all-Kept, run-replacements}

All-later :
    (x : Entry) (es fs : List Entry)
    → All (λ e. Has e.score fs) es
    → All (λ e. Has e.score (x ∷ fs)) es
All-later x [] fs h = tt
All-later x (e ∷ es) fs (h, t) = (inr h, All-later x es fs t)

All-Has : (es : List Entry) → All (λ e. Has e.score es) es
All-Has [] = tt
All-Has (x ∷ es) = (inl refl, All-later x es es (All-Has es))

All-take : (P : Entry → Type 0) (n : ℕ) (es : List Entry) → All P es → All P (take n es)
All-take P zero es h = tt
All-take P (suc n) [] h = tt
All-take P (suc n) (x ∷ es) (h, t) = (h, All-take P n es t)

added : Event → Option (List Event) → Option (List Event)
added evt o = elim o [ none ↦ none | some evts ↦ some (evt ∷ evts) ]

added-Known :
    (h : List Entry) (evt : Event) (evts : List Event) (o : Option (List Event))
    → IsTyped evt
    → Has (get_id evt) h
    → ((rest : List Event) → o ≡ some rest → Known h rest)
    → added evt o ≡ some evts
    → Known h evts
unfolding added
added-Known h evt evts none typed has rest e = cc
added-Known h evt evts (some es) typed has rest e =
    subst (Known h) (some-inj e) ((typed, has), rest es refl)

-- The events of a batch are those of entries of the history.
parsed-Known :
    (h es : List Entry) (evts : List Event)
    → All IsReadable es
    → All (λ e. Has e.score h) es
    → parse_all (texts_of es) ≡ some evts
    → Known h evts
unfolding parse_all added
parsed-Known h [] evts readable there e = subst (Known h) (some-inj e) tt
parsed-Known h (x ∷ es) evts ((evt, parsed, id, typed), readable) (has, there) e =
    added-Known h evt evts (parse_all (texts_of es)) typed (subst (λ i. Has i h) (sym id) has)
      (λ rest found. parsed-Known h es rest readable there found)
      (sym (
          ap
            (λ q. elim q as (λ _. Option (List Event)) [
              | err _ ↦ none
              | ok a ↦ added a (parse_all (texts_of es))
            ])
            parsed)
        ∙ e)

set_player_id-same :
    (evt : Event) (id : Text)
    → (get_id (set_player_id evt id) ≡ get_id evt) × (IsTyped evt → IsTyped (set_player_id evt id))
set_player_id-same (roll e) id = (refl, λ h. h)
set_player_id-same (edge_roll e) id = (refl, λ h. h)
set_player_id-same (reroll e) id = (refl, λ h. h)
set_player_id-same (initiative_roll e) id = (refl, λ h. h)
set_player_id-same (player_join c) id = (refl, λ h. h)

some-pair :
    {a b : List Event} {m n : Migration}
    → ◌≡◌ {A = Option (List Event × Migration)} (some (a, m)) (some (b, n))
    → a ≡ b
some-pair h = cc

changed-Known :
    (h : List Entry) (evt : Event) (id : Text) (q : Option (List Event × Migration))
    (evts : List Event) (n : Migration)
    → IsTyped evt
    → Has (get_id evt) h
    → ((p : List Event × Migration) → q ≡ some p → Known h p.0)
    → with_event evt id q ≡ some (evts, n)
    → Known h evts
unfolding with_event
changed-Known h evt id none evts n typed has rest e = cc
changed-Known h evt id (some (es, k)) evts n typed has rest e =
    let (same, typed') = set_player_id-same evt id in
    subst (Known h) (some-pair e)
      ((typed' typed, subst (λ i. Has i h) (sym same) has), rest (es, k) refl)

go_on : Names → Event → List Event → Option (Text × Migration) → Option (List Event × Migration)
go_on names evt batch o = elim o [
  | none ↦ none
  | some (player_id, n) ↦ with_event evt player_id (migrate_batch names batch n)
]

-- The migration of a batch changes no ID and no type.
migrate_batch-Known :
    (h : List Entry) (names : Names) (batch evts : List Event) (m n : Migration)
    → Known h batch
    → migrate_batch names batch m ≡ some (evts, n)
    → Known h evts
unfolding migrate_batch go_on
migrate_batch-Known h names [] evts m n known e = subst (Known h) (some-pair e) tt
migrate_batch-Known h names (evt ∷ batch) evts m n ((typed, has), known) e =
    elim (option_cases (player_of names evt m)) [
      | inl fails ↦ let stop = sym (ap (go_on names evt batch) fails) ∙ e in cc
      | inr (q, found) ↦
          changed-Known h evt q.0 (migrate_batch names batch q.1) evts n typed has
            (λ p k. migrate_batch-Known h names batch p.0 q.1 p.1 known k)
            (sym (ap (go_on names evt batch) found) ∙ e)
    ]

module _ (r : Redis) (doc : Documented r) (game_id : Text) where
  open doc use {view, precedes}

  bulk_update-ok :
      (evts : List Event) (d d' : r.Db)
      → bulk_update r game_id evts d ≡ (ok tt, d')
      → view d' ≡ swap_all precedes (channel history game_id) evts (view d)
  unfolding bulk_update
  bulk_update-ok evts d d' h =
      let cmds = replacements game_id evts in
      let (ns, t, h1, k1) = bind-ok (redis (transaction r cmds)) _ d h in
      let ran =
        transaction-ok r doc cmds d t (wrap-ok (λ _. redis_error) (transaction r cmds) d h1) in
      sym (ap view (expect-state _ t d' k1))
      ∙ sym (ap (λ p. p.1) ran)
      ∙ run-replacements precedes game_id evts (view d)

  batch-Known :
      (newest : ℤ) (events : List Event) (d : r.Db)
      → IsGood r doc game_id d
      → parse_all (batch_at r doc game_id newest d) ≡ some events
      → Known (entries r doc game_id d) events
  batch-Known newest events d (rises, readable) h =
      let es = entries r doc game_id d in
      let k = keep (up_to newest) es in
      let cut : (P : Entry → Type 0) → All P es → All P (take buffer_size (reverse k)) = λ P all.
        All-take P buffer_size (reverse k)
          (All-reverse_aux P k [] (All-keep P (up_to newest) es all) tt) in
      parsed-Known es (take buffer_size (reverse k)) events (cut IsReadable readable)
        (cut (λ e. Has e.score es) (All-Has es))
        (ap parse_all (sym (take-map buffer_size (reverse k))) ∙ h)

  migrate-Keeps : (names : Names) → Keeps r doc game_id (migrate r game_id names)
  unfolding migrate
  migrate-Keeps names newest events m n d d' good batch h =
      let (res, t, h1, k1) = bind-ok (or_panic (migrate_batch names events m)) _ d h in
      let (done, at_start) = or_panic-ok (migrate_batch names events m) d h1 in
      let (_, u, h2, k2) = bind-ok (bulk_update r game_id res.0) _ t k1 in
      let es = entries r doc game_id d in
      let known =
        migrate_batch-Known es names events res.0 m res.1 (batch-Known newest events d good batch)
          done in
      let after : view d' ≡ swap_all precedes (channel history game_id) res.0 (view d) =
        sym (ap (λ p. view p.1) k2)
        ∙ bulk_update-ok res.0 t u h2
        ∙ ap (λ x. swap_all precedes (channel history game_id) res.0 (view x)) at_start in
      let (same, readable) =
        subst (Kept es) (sym (ap (λ v. v.zsets (channel history game_id)) after))
          (swap_all-Kept precedes (channel history game_id) res.0 (view d) known good.0 good.1) in
      let fs = entries r doc game_id d' in
      ((Rises-scores es fs same good.0, readable), (λ id. count-scores id es fs same))

  -- The migration of a game whose history stands by rising IDs, each entry an event with the type of
  -- its struct whose ID is its score, never runs out of fuel where that exceeds the number of events
  -- up to the ID of the present time: it returns, or an error or a panic ends it.
  pub handle_game_migration_task-ends :
      (fuel retries now : ℕ) (stdin : List Text) (d d' : r.Db)
      → IsGood r doc game_id d
      → length (keep (up_to (new_event_id now)) (entries r doc game_id d)) < fuel
      → handle_game_migration_task r fuel retries now stdin game_id d ≢ (ok none, d')
  unfolding handle_game_migration_task Reads
  handle_game_migration_task-ends fuel retries now stdin d d' good enough h =
      let (players, t, h1, k1) = bind-ok (get_players_in r retries game_id) _ d h in
      let same : view t ≡ view d =
        sym (ap (λ p. view p.1) h1) ∙ Reads-get_players_in r doc retries game_id d in
      let kept = ap (λ v. v.zsets (channel history game_id)) same in
      let still : IsGood r doc game_id t =
        (subst Rises (sym kept) good.0, subst (All IsReadable) (sym kept) good.1) in
      stream_read_events-ends r doc game_id (migrate r game_id (by_username players []))
        (migrate-Keeps (by_username players [])) fuel (new_event_id now)
        (record { migrated = []; aliases = []; stdin = stdin }) t d' still (rw (kept) enough) k1
