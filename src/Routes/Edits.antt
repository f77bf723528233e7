-- ===== src/Routes/Edits.antt =====
-- routes/game.go, routes/event.go and routes/initiative.go: the handlers that change or delete an
-- event. A number of a diff is a float64, n / 2 ^ k. The order in which Go ranges over the map of a
-- diff is a parameter, `range`.
use Prim.Native.Nat.{◌/◌, ◌%◌}
use sr_server.Prelude.{
  ℕ, suc, ◌-◌, ◌^◌, Bool, not, ◌||◌, Option, none, some, [], ◌∷◌, ◌==◌, length, if◌then◌else◌, Text,
  codes, text_eq, ℤ, pos, negsuc, ltb_ℤ, eq_ℤ, Exec, Result, ok, err, pure, raise, ◌>>=◌, ◌>>◌,
}
use sr_server.Json.{
  Json, null, bool, int, frac, str, obj, Fields, end, field, Mismatch, mismatch, get_field,
  read_int,
}
use sr_server.Id.{new_event_id}
use sr_server.Redis.{Redis}
use sr_server.Session.{Session}
use sr_server.Event.{
  Event, InitiativeRoll, roll, edge_roll, reroll, initiative_roll, player_join, get_type,
  get_player_id, get_share, set_edit, event_type_player_join, event_type_initiative_roll,
}
use sr_server.Event.Share.{is_share}
use sr_server.Event.Codec.{parse}
use sr_server.Event.Events.{get_by_id}
use sr_server.Update.{Diff, put_key, for_event_diff}
use sr_server.Game.EventManager.{delete_event, update_event, update_event_share}
use sr_server.Routes.{
  Stop, aborted, crashed, Answer, empty, Request, request_session, read_body_json, read_or,
  http_bad_request, http_forbidden, http_bad_request_if, http_internal_error_if,
}

-- n / 2 ^ k as an int, towards zero
abbrev pub truncated : ℤ → ℕ → ℤ
truncated (pos n) k = pos (n / 2 ^ k)
truncated (negsuc n) k = if suc n / 2 ^ k == 0 then pos 0 else negsuc (suc n / 2 ^ k - 1)

-- math.Round(x) == x
abbrev is_whole : ℤ → ℕ → Bool
is_whole (pos n) k = n % 2 ^ k == 0
is_whole (negsuc n) k = suc n % 2 ^ k == 0

-- json.Marshal of a float64
abbrev float_json : ℤ → ℕ → Json
float_json n k = if is_whole n k then int (truncated n k) else frac n k

abbrev map_of : Fields → Diff
map_of end = []
map_of (field k v fs) = put_key k v (map_of fs)

-- the Diff of an updateEventRequest, a map
abbrev pub read_diff : Option Json → Result Mismatch Diff
read_diff none = ok []
read_diff (some null) = ok []
read_diff (some (obj fs)) = ok (map_of fs)
read_diff (some _) = err mismatch

-- FieldByName("Title"); a player join has no such field
abbrev with_title : Event → Text → Option Event
with_title (roll e) t = some (roll (record e { title = t }))
with_title (edge_roll e) t = some (edge_roll (record e { title = t }))
with_title (reroll e) t = some (reroll (record e { title = t }))
with_title (initiative_roll e) t = some (initiative_roll (record e { title = t }))
with_title (player_join c) t = none

-- FieldByName("Glitchy")
abbrev with_glitchy : Event → ℤ → Option Event
with_glitchy (roll e) g = some (roll (record e { glitchy = g }))
with_glitchy (edge_roll e) g = some (edge_roll (record e { glitchy = g }))
with_glitchy (reroll e) g = some (reroll (record e { glitchy = g }))
with_glitchy (initiative_roll e) g = none
with_glitchy (player_join c) g = none

module _ {S : Type 0} where
  unfoldable pub changed : Text → Json → Diff → Option Event → Exec S Stop (Event × Diff)
  changed key value diff none = raise (aborted 500)
  changed key value diff (some evt) = pure (evt, put_key key value diff)

  unfoldable pub set_title : Event → Diff → Json → Exec S Stop (Event × Diff)
  unfolding changed
  set_title evt diff (str t) = changed (codes "title") (str t) diff (with_title evt t)
  set_title evt diff _ = raise (aborted 400)

  unfoldable pub set_glitchy : Event → Diff → Json → Exec S Stop (Event × Diff)
  unfolding changed
  set_glitchy evt diff (int n) = changed (codes "glitchy") (int n) diff (with_glitchy evt n)
  set_glitchy evt diff (frac n k) =
      changed (codes "glitchy") (float_json n k) diff (with_glitchy evt (truncated n k))
  set_glitchy evt diff _ = raise (aborted 400)

  -- one turn of the loop of handleUpdateEvent; an unknown key is only logged
  unfoldable pub update_field : Text → Json → Event → Diff → Exec S Stop (Event × Diff)
  unfolding set_title set_glitchy
  update_field key value evt diff =
      if text_eq key (codes "title")
      then set_title evt diff value
      else if text_eq key (codes "glitchy")
      then set_glitchy evt diff value
      else if text_eq key (codes "share")
      then raise (aborted 400)
      else pure (evt, diff)

  unfoldable pub update_fields : Diff → Event → Diff → Exec S Stop (Event × Diff)
  unfolding update_field
  update_fields [] evt diff = pure (evt, diff)
  update_fields ((key, value) ∷ requested) evt diff = do
    next ← update_field key value evt diff
    update_fields requested next.0 next.1

  unfoldable pub set_base : InitiativeRoll → Diff → ℤ → Exec S Stop (InitiativeRoll × Diff)
  set_base evt diff base =
      if ltb_ℤ base (negsuc 1) || ltb_ℤ (pos 50) base
      then raise (aborted 400)
      else if eq_ℤ base evt.base
      then pure (evt, diff)
      else pure (record evt { base = base }, put_key (codes "base") (int base) diff)

  unfoldable pub edit_title : InitiativeRoll → Diff → Json → Exec S Stop (InitiativeRoll × Diff)
  edit_title evt diff (str t) =
      if text_eq t evt.title
      then pure (evt, diff)
      else pure (record evt { title = t }, put_key (codes "title") (str t) diff)
  edit_title evt diff _ = raise (aborted 400)

  unfoldable pub edit_base : InitiativeRoll → Diff → Json → Exec S Stop (InitiativeRoll × Diff)
  unfolding set_base
  edit_base evt diff (int n) = set_base evt diff n
  edit_base evt diff (frac n k) =
      if is_whole n k then set_base evt diff (truncated n k) else raise (aborted 400)
  edit_base evt diff _ = raise (aborted 400)

  unfoldable pub edit_seized : InitiativeRoll → Diff → Json → Exec S Stop (InitiativeRoll × Diff)
  edit_seized evt diff (bool b) =
      if (if b then evt.seized else not evt.seized)
      then pure (evt, diff)
      else pure (record evt { seized = b }, put_key (codes "seized") (bool b) diff)
  edit_seized evt diff _ = raise (aborted 400)

  -- one turn of the loop of handleEditInitiative
  unfoldable pub edit_field :
      Text → Json → InitiativeRoll → Diff → Exec S Stop (InitiativeRoll × Diff)
  unfolding edit_title edit_base edit_seized
  edit_field key value evt diff =
      if text_eq key (codes "title")
      then edit_title evt diff value
      else if text_eq key (codes "base")
      then edit_base evt diff value
      else if text_eq key (codes "seized")
      then edit_seized evt diff value
      else raise (aborted 400)

  unfoldable pub edit_fields : Diff → InitiativeRoll → Diff → Exec S Stop (InitiativeRoll × Diff)
  unfolding edit_field
  edit_fields [] evt diff = pure (evt, diff)
  edit_fields ((key, value) ∷ requested) evt diff = do
    next ← edit_field key value evt diff
    edit_fields requested next.0 next.1

  -- evt.(*event.InitiativeRoll), which panics on another type
  unfoldable pub as_initiative : Event → Exec S Stop InitiativeRoll
  as_initiative (initiative_roll e) = pure e
  as_initiative _ = raise crashed

module _ (r : Redis) where
  -- handleUpdateEvent
  unfoldable pub handle_update_event : (Diff → Diff) → ℕ → Request → Exec r.Db Stop Answer
  unfolding update_fields
  handle_update_event range now request = do
    sess ← request_session r request
    fs ← read_or 500 (read_body_json (codes "id" ∷ codes "diff" ∷ []) request)
    id ← read_or 500 (read_int (get_field (codes "id") fs))
    requested ← read_or 500 (read_diff (get_field (codes "diff") fs))
    event_text ← http_bad_request_if (get_by_id r sess.game_id id)
    evt ← read_or 400 (parse event_text)
    http_forbidden (not (text_eq (get_player_id evt) sess.player_id))
    http_forbidden (text_eq (get_type evt) event_type_player_join)
    edited ← update_fields (range requested) (set_edit evt (new_event_id now)) []
    http_internal_error_if (update_event r sess.game_id edited.0 (for_event_diff edited.0 edited.1))
    pure empty

  -- handleDeleteEvent
  unfoldable pub handle_delete_event : Request → Exec r.Db Stop Answer
  handle_delete_event request = do
    sess ← request_session r request
    fs ← read_or 500 (read_body_json (codes "id" ∷ []) request)
    id ← read_or 500 (read_int (get_field (codes "id") fs))
    event_text ← http_bad_request_if (get_by_id r sess.game_id id)
    evt ← read_or 400 (parse event_text)
    http_forbidden (not (text_eq (get_player_id evt) sess.player_id))
    http_forbidden (text_eq (get_type evt) event_type_player_join)
    http_internal_error_if (delete_event r sess.game_id evt)
    pure empty

  unfoldable pub reshare : Session → Event → ℤ → Exec r.Db Stop Answer
  reshare sess evt share =
      if eq_ℤ (get_share evt) share
      then pure empty
      else http_internal_error_if (update_event_share r sess.game_id evt share) >> pure empty

  -- handleShareEvent
  unfoldable pub handle_share_event : Request → Exec r.Db Stop Answer
  unfolding reshare
  handle_share_event request = do
    sess ← request_session r request
    fs ← read_or 500 (read_body_json (codes "id" ∷ codes "share" ∷ []) request)
    id ← read_or 500 (read_int (get_field (codes "id") fs))
    share ← read_or 500 (read_int (get_field (codes "share") fs))
    http_bad_request (not (is_share share))
    event_text ← http_bad_request_if (get_by_id r sess.game_id id)
    evt ← read_or 500 (parse event_text)
    http_forbidden (not (text_eq (get_player_id evt) sess.player_id))
    http_forbidden (text_eq (get_type evt) event_type_player_join)
    reshare sess evt share

  -- handleEditInitiative; it goes on after an empty diff
  unfoldable pub handle_edit_initiative : (Diff → Diff) → ℕ → Request → Exec r.Db Stop Answer
  unfolding edit_fields
  handle_edit_initiative range now request = do
    sess ← request_session r request
    fs ← read_or 500 (read_body_json (codes "id" ∷ codes "diff" ∷ []) request)
    id ← read_or 500 (read_int (get_field (codes "id") fs))
    requested ← read_or 500 (read_diff (get_field (codes "diff") fs))
    http_bad_request (length requested == 0)
    event_text ← http_bad_request_if (get_by_id r sess.game_id id)
    evt ← read_or 400 (parse event_text)
    http_forbidden (not (text_eq (get_type evt) event_type_initiative_roll))
    http_forbidden (not (text_eq (get_player_id evt) sess.player_id))
    init_event ← as_initiative (set_edit evt (new_event_id now))
    edited ← edit_fields (range requested) init_event []
    let event = initiative_roll edited.0
    http_internal_error_if (update_event r sess.game_id event (for_event_diff event edited.1))
    pure empty
