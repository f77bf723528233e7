-- ===== src/Routes/Rolls.antt =====
-- routes/game.go and routes/initiative.go: the handlers that roll dice and post the event. `now` is
-- the clock of NewEventID, `chan` the rolls that the dice channel still gives.
use sr_server.Prelude.{
  ℕ, Bool, true, false, not, List, [], ◌∷◌, map, ◌==◌, length, if◌then◌else◌, Text, codes, text_eq,
  ℤ, pos, negsuc, pos_part, ltb_ℤ, Exec, Result, err, pure, ◌>>=◌, ◌>>◌,
}
use sr_server.Dice.{fill_rolls, exploding_sixes, reroll_failures, valid_reroll_type}
use sr_server.Json.{Json, obj, Mismatch, mismatch, get_field, read_int, read_text, read_bool}
use sr_server.Redis.{Redis}
use sr_server.Player.{Player}
use sr_server.Session.{get_player}
use sr_server.Event.{
  Event, Roll, roll, edge_roll, reroll, initiative_roll, for_roll, for_edge_roll, for_reroll,
  for_initiative_roll,
}
use sr_server.Event.Share.{is_share}
use sr_server.Event.Logging.{parse_ty}
use sr_server.Event.Codec.{read_roll}
use sr_server.Event.Events.{get_by_id}
use sr_server.Game.EventManager.{post_event, delete_event}
use sr_server.Routes.{
  Stop, Answer, empty, Request, request_session, read_body_json, read_or, received,
  http_bad_request, http_internal_error_if,
}

pub record RollRequest : Type 0 where
  pub count : ℤ
  pub title : Text
  pub share : ℤ
  pub edge : Bool
  pub glitchy : ℤ

pub record InitiativeRollRequest : Type 0 where
  pub title : Text
  pub share : ℤ
  pub base : ℤ
  pub dice : ℤ
  pub seized : Bool
  pub blitzed : Bool

-- json.Unmarshal of a text into a Roll
abbrev read_previous : Json → Result Mismatch Roll
read_previous (obj fs) = read_roll fs
read_previous _ = err mismatch

module _ {S : Type 0} where
  unfoldable pub read_roll_request : Request → Exec S Stop RollRequest
  unfolding read_body_json
  read_roll_request request = do
    fs ← read_or 500 (
        read_body_json
          (codes "count" ∷ codes "title" ∷ codes "share" ∷ codes "edge" ∷ codes "glitchy" ∷ [])
          request)
    count ← read_or 500 (read_int (get_field (codes "count") fs))
    title ← read_or 500 (read_text (get_field (codes "title") fs))
    share ← read_or 500 (read_int (get_field (codes "share") fs))
    edge ← read_or 500 (read_bool (get_field (codes "edge") fs))
    glitchy ← read_or 500 (read_int (get_field (codes "glitchy") fs))
    pure (record { count = count; title = title; share = share; edge = edge; glitchy = glitchy })

  -- the event of handleRoll
  unfoldable pub rolled : ℕ → List ℕ → Player → RollRequest → Exec S Stop Event
  unfolding exploding_sixes fill_rolls for_roll for_edge_roll
  rolled now chan player req = elim req.edge [
    | true ↦ do
      e ← received (exploding_sixes (pos_part req.count) chan)
      pure (
          edge_roll
            (for_edge_roll now player req.share req.title (map (map pos) e.results) req.glitchy))
    | false ↦ do
      f ← received (fill_rolls (pos_part req.count) chan)
      pure (roll (for_roll now player req.share req.title (map pos f.rolls) req.glitchy))
  ]

  unfoldable pub read_initiative_request : Request → Exec S Stop InitiativeRollRequest
  unfolding read_body_json
  read_initiative_request request = do
    fs ← read_or 500 (
        read_body_json
          (codes "title"
            ∷ codes "share"
            ∷ codes "base"
            ∷ codes "dice"
            ∷ codes "seized"
            ∷ codes "blitzed"
            ∷ [])
          request)
    title ← read_or 500 (read_text (get_field (codes "title") fs))
    share ← read_or 500 (read_int (get_field (codes "share") fs))
    base ← read_or 500 (read_int (get_field (codes "base") fs))
    dice ← read_or 500 (read_int (get_field (codes "dice") fs))
    seized ← read_or 500 (read_bool (get_field (codes "seized") fs))
    blitzed ← read_or 500 (read_bool (get_field (codes "blitzed") fs))
    pure (record {
      title = title;
      share = share;
      base = base;
      dice = dice;
      seized = seized;
      blitzed = blitzed;
    })

module _ (r : Redis) where
  -- handleRoll, with config.MaxSingleRoll
  unfoldable pub handle_roll : ℤ → ℕ → List ℕ → Request → Exec r.Db Stop Answer
  handle_roll max_single_roll now chan request = do
    sess ← request_session r request
    req ← read_roll_request request
    http_bad_request (ltb_ℤ req.count (pos 1))
    http_bad_request (ltb_ℤ max_single_roll req.count)
    http_bad_request (not (is_share req.share))
    player ← http_internal_error_if (get_player r sess)
    evt ← rolled now chan player req
    http_internal_error_if (post_event r sess.game_id evt)
    pure empty

  -- handleReroll
  unfoldable pub handle_reroll : ℕ → List ℕ → Request → Exec r.Db Stop Answer
  handle_reroll now chan request = do
    sess ← request_session r request
    fs ← read_or 500 (read_body_json (codes "rollID" ∷ codes "rerollType" ∷ []) request)
    roll_id ← read_or 500 (read_int (get_field (codes "rollID") fs))
    reroll_type ← read_or 500 (read_text (get_field (codes "rerollType") fs))
    http_bad_request (not (valid_reroll_type reroll_type))
    previous_text ← http_internal_error_if (get_by_id r sess.game_id roll_id)
    http_bad_request (not (text_eq (parse_ty previous_text) (codes "roll")))
    previous ← read_or 400 (read_previous previous_text)
    f ← received (reroll_failures previous.dice chan)
    http_bad_request (length f.rolls == 0)
    player ← http_internal_error_if (get_player r sess)
    let rerolled = for_reroll now player previous (map pos f.rolls ∷ previous.dice ∷ [])
    http_internal_error_if (delete_event r sess.game_id (roll previous))
    http_internal_error_if (post_event r sess.game_id (reroll rerolled))
    pure empty

  -- handleRollInitiative; the number of dice is set to 5 for a blitz after it is checked
  unfoldable pub handle_roll_initiative : ℕ → List ℕ → Request → Exec r.Db Stop Answer
  handle_roll_initiative now chan request = do
    sess ← request_session r request
    req ← read_initiative_request request
    http_bad_request (ltb_ℤ req.dice (pos 1))
    http_bad_request (ltb_ℤ req.base (negsuc 1))
    http_bad_request (ltb_ℤ (pos 5) req.dice)
    let dice = if req.blitzed then 5 else pos_part req.dice
    http_bad_request (not (is_share req.share))
    player ← http_internal_error_if (get_player r sess)
    f ← received (fill_rolls dice chan)
    let evt =
        for_initiative_roll now player req.share req.title req.base (map pos f.rolls) req.seized
          req.blitzed
    http_internal_error_if (post_event r sess.game_id (initiative_roll evt))
    pure empty
