-- ===== src/Task/Ending.antt =====
-- The migration moves no event, so that it comes to its end.
use sr_server.Prelude.{
  ◌≡◌, refl, sym, ap, subst, ◌∙◌, Bool, false, not, List, [], ◌∷◌, All, update, update_self, Text,
}
use sr_server.Json.{Json}
use sr_server.Redis.{zadd_nx, zremrangebyscore}
use sr_server.Redis.Documented.{View, Entry, in_range, insert_entry, apply, run}
use sr_server.Event.{Event, get_id}
use sr_server.Event.Codec.{marshal, IsTyped, parse-marshal}
use sr_server.Event.Events.{replacements}
use sr_server.Game.Channels.{channel, history}
use sr_server.Game.EventManager.Posting.{entry, has_text}
use sr_server.Task.Batches.{Rises, IsReadable, All-keep}
use sr_server.Task.Rewriting.{
  Has, scores, without, scores-insert, All-insert, Rises-scores, Has-scores, new_text,
}

-- Events of the history, each with the type of its struct.
abbrev pub Known : List Entry → List Event → Type 0
Known es = All (λ e. IsTyped e × Has (get_id e) es)

-- The scores are as before, and each entry is still an event of its score.
abbrev pub Kept : List Entry → List Entry → Type 0
Kept es fs = (scores es ≡ scores fs) × All IsReadable fs

module _ (precedes : Json → Json → Bool) (key : Text) where
  -- the two commands for an event
  abbrev swapped : Event → View → View
  swapped evt v =
      (apply precedes (zadd_nx key (get_id evt) (marshal evt))
        (apply precedes (zremrangebyscore key (get_id evt) (get_id evt)) v).1).1

  abbrev in_place : Event → List Entry → List Entry
  in_place evt es = insert_entry precedes (entry evt) (without (get_id evt) es)

  swapped-zsets :
      (evt : Event) (v : View)
      → has_text (marshal evt) (without (get_id evt) (v.zsets key)) ≡ false
      → (swapped evt v).zsets key ≡ in_place evt (v.zsets key)
  unfolding apply
  swapped-zsets evt v new =
      let rest = without (get_id evt) (v.zsets key) in
      let here = update_self key rest v.zsets in
      let fresh = ap (has_text (marshal evt)) here ∙ new in
      rw (swapped, fresh)
        (update_self key (insert_entry precedes (entry evt) (update key rest v.zsets key))
            (update key rest v.zsets)
          ∙ ap (insert_entry precedes (entry evt)) here)

  in_place-Kept :
      (evt : Event) (es : List Entry)
      → IsTyped evt
      → Has (get_id evt) es
      → Rises es
      → All IsReadable es
      → Kept es (in_place evt es)
  in_place-Kept evt es typed has rises readable = (
    sym (scores-insert precedes (entry evt) es rises has),
    All-insert precedes (entry evt) IsReadable (without (get_id evt) es)
        (evt, parse-marshal evt typed, refl, typed)
        (All-keep IsReadable (λ e. not (in_range (get_id evt) (get_id evt) e)) es readable),
  )

  Known-scores :
      (es fs : List Entry) (evts : List Event)
      → scores es ≡ scores fs
      → Known es evts
      → Known fs evts
  Known-scores es fs [] same h = tt
  Known-scores es fs (e ∷ evts) same ((typed, has), h) =
      ((typed, Has-scores (get_id e) es fs same has), Known-scores es fs evts same h)

  -- the commands of BulkUpdate
  abbrev pub swap_all : List Event → View → View
  swap_all [] v = v
  swap_all (evt ∷ evts) v = swap_all evts (swapped evt v)

  pub swap_all-Kept :
      (evts : List Event) (v : View)
      → Known (v.zsets key) evts
      → Rises (v.zsets key)
      → All IsReadable (v.zsets key)
      → Kept (v.zsets key) ((swap_all evts v).zsets key)
  swap_all-Kept [] v known rises readable = (refl, readable)
  swap_all-Kept (evt ∷ evts) v ((typed, has), known) rises readable =
      let es = v.zsets key in
      let placed = swapped-zsets evt v (new_text evt es typed readable) in
      let (same, still) =
        subst (Kept es) (sym placed) (in_place-Kept evt es typed has rises readable) in
      let fs = (swapped evt v).zsets key in
      let (same', still') =
        swap_all-Kept evts (swapped evt v) (Known-scores es fs evts same known)
          (Rises-scores es fs same rises) still in
      (same ∙ same', still')

pub run-replacements :
    (precedes : Json → Json → Bool) (game_id : Text) (evts : List Event) (v : View)
    → (run precedes (replacements game_id evts) v).1
      ≡ swap_all precedes (channel history game_id) evts v
unfolding run replacements
run-replacements precedes game_id [] v = refl
run-replacements precedes game_id (evt ∷ evts) v =
    run-replacements precedes game_id evts (swapped precedes (channel history game_id) evt v)
