-- ===== src/Routes/Game/Edited.antt =====
-- A request to modify an event changes only what may be changed.
use sr_server.Prelude.{ℕ, ◌≡◌, sym, ap, ◌∙◌, [], ◌∷◌, Text, codes, ℤ, ok, arith, bind-ok, length}
use sr_server.Json.{Json}
use sr_server.Id.{new_event_id}
use sr_server.Redis.{Redis}
use sr_server.Redis.Documented.{Documented}
use sr_server.Session.{Session}
use sr_server.Update.{Diff}
use sr_server.Event.{Event, core_of, get_id, set_edit}
use sr_server.Event.Events.Laws.{newest_of}
use sr_server.Game.EventManager.Deleting.{of_id}
use sr_server.Game.EventManager.Updating.{swapped, update_event-ok}
use sr_server.Routes.{Answer, Request}
use sr_server.Routes.Ensures.{
  Ensures, Ensures-bind, Ensures-read_or, Ensures-stop_if, Ensures-write, Ensures-request_session,
  Ensures-event,
}
use sr_server.Routes.Quiet.{Reads}
use sr_server.Routes.Steps.{Reads-update_fields}
use sr_server.Routes.Edits.{
  handle_update_event, update_fields, update_field, set_title, set_glitchy, changed,
}
use sr_server.Routes.Game.Owned.{Owns, Asks, same_text, other_text}

module _ {S : Type 0} where
  with_field-same :
      (key : Text) (value : Json) (evt : Event) (diff : Diff) (d : S) (next : Event × Diff) (d' : S)
      → update_field key value evt diff d ≡ (ok next, d')
      → core_of next.0 ≡ core_of evt
  unfolding update_field set_title set_glitchy changed
  with_field-same key value evt diff d next d' h = ground arith

  -- The loop over the diff of an edit changes nothing of the core.
  pub update_fields-core :
      (requested : Diff) (evt : Event) (diff : Diff) (d : S) (next : Event × Diff) (d' : S)
      → update_fields requested evt diff d ≡ (ok next, d')
      → core_of next.0 ≡ core_of evt
  unfolding update_fields
  update_fields-core [] evt diff d next d' h = cc
  update_fields-core ((key, value) ∷ requested) evt diff d next d' h =
      let (mid, t, first, later) = bind-ok (update_field key value evt diff) _ d h in
      update_fields-core requested mid.0 mid.1 t next d' later
      ∙ with_field-same key value evt diff d mid t first

core_of-set_edit :
    (evt : Event) (t : ℤ) → core_of (set_edit evt t) ≡ record (core_of evt) { edit = t }
core_of-set_edit evt t = ground arith

module _ (r : Redis) (doc : Documented r) where
  open doc use {view, precedes}

  Ensures-edit :
      (requested : Diff) (evt : Event) (diff : Diff) (d : r.Db)
      → Ensures
          (update_fields requested evt diff)
          d
          (λ next t. (core_of next.0 ≡ core_of evt) × (view t ≡ view d))
  unfolding Ensures Reads
  Ensures-edit requested evt diff d next t h = (
    update_fields-core requested evt diff d next t h,
    ap (λ p. view p.1) (sym h) ∙ Reads-update_fields r doc requested evt diff d,
  )

  -- What a modification that succeeds comes with and does.
  unfoldable pub Modified : ℕ → Request → r.Db → Answer → r.Db → Type 0
  Modified now request d a d' =
      (sess : Session) × (id : ℤ) × (evt edited : Event) × Asks r d (codes "id" ∷ codes "diff" ∷ [])
        request sess id
      × Owns (view d) sess id evt
      × (core_of edited ≡ record (core_of evt) { edit = new_event_id now })
      × (length (of_id sess.game_id (get_id edited) (view d)) ≡ 1)
      × ((view d').zsets ≡ swapped precedes sess.game_id edited (view d))

  Ensures-handle_update_event :
      (range : Diff → Diff) (now : ℕ) (request : Request) (d : r.Db)
      → Ensures (handle_update_event r range now request) d (Modified now request d)
  unfolding handle_update_event Modified
  Ensures-handle_update_event range now request d =
      Ensures-bind _ _ d _ _ (Ensures-request_session r doc request d) λ sess d1 (s1, v1).
        Ensures-bind _ _ d1 _ _ (Ensures-read_or _ _ d1) λ fs d2 (s2, v2).
          Ensures-bind _ _ d2 _ _ (Ensures-read_or _ _ d2) λ id d3 (s3, v3).
            Ensures-bind _ _ d3 _ _ (Ensures-read_or _ _ d3) λ requested d4 (s4, v4).
              Ensures-bind _ _ d4 _ _ (Ensures-event r doc 400 _ _ d4) λ text d5 (s5, v5).
                Ensures-bind _ _ d5 _ _ (Ensures-read_or _ _ d5) λ evt d6 (s6, v6).
                  Ensures-bind _ _ d6 _ _ (Ensures-stop_if _ _ d6) λ _ d7 (s7, v7).
                    Ensures-bind _ _ d7 _ _ (Ensures-stop_if _ _ d7) λ _ d8 (s8, v8).
                      Ensures-bind
                        (update_fields (range requested) (set_edit evt (new_event_id now)) []) _ d8
                        _ _ (Ensures-edit (range requested) (set_edit evt (new_event_id now)) [] d8)
                        λ edited d9 (s9, v9). Ensures-write _ _ d9 _ λ _ d10 s10.
                          let e4 : view d4 ≡ view d = ap view v4 ∙ ap view v3 ∙ ap view v2 ∙ v1 in
                          let e9 : view d9 ≡ view d =
                            v9 ∙ ap view v8 ∙ ap view v7 ∙ ap view v6 ∙ v5 ∙ e4 in
                          let (_, _, one, zsets, _) =
                            update_event-ok r doc sess.game_id edited.0 d9 d10 _ s10 in
                          (
                            sess,
                            id,
                            evt,
                            edited.0,
                            (s1, fs, s2, s3),
                            (
                              text,
                              ap (λ v. newest_of (of_id sess.game_id id v)) (sym e4) ∙ s5,
                              s6,
                              same_text _ _ s7,
                              other_text _ _ s8,
                            ),
                            s9 ∙ core_of-set_edit evt (new_event_id now),
                            ap (λ v. length (of_id sess.game_id (get_id edited.0) v)) (sym e9)
                                ∙ one,
                            zsets ∙ ap (swapped precedes sess.game_id edited.0) e9,
                          )

  -- A request to modify an event that succeeds comes with a session and the ID of an event in the
  -- history of the session's game; that event is no join and its player is the session's. Whatever
  -- diff was asked for and in whatever order it was taken, the event that now stands in the place
  -- of the one of its ID has the ID, the type, the share and the player that it had, and the time of
  -- the edit; every other entry of every history is as it was.
  pub handle_update_event-ok :
      (range : Diff → Diff) (now : ℕ) (request : Request) (d d' : r.Db) (a : Answer)
      → handle_update_event r range now request d ≡ (ok a, d')
      → Modified now request d a d'
  unfolding Ensures
  handle_update_event-ok range now request d d' a h =
      Ensures-handle_update_event range now request d a d' h
