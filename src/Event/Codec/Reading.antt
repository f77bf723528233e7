-- ===== src/Event/Codec/Reading.antt =====
-- event.Parse: the type of the event chooses the struct that its fields are read into.
use sr_server.Prelude.{Option, none, some, Text, codes, text_eq, if◌then◌else◌, Result, ok, err}
use sr_server.Json.{
  Json, obj, str, Fields, get_field, Mismatch, mismatch, read_int, read_text, read_bool, read_ints,
  read_rounds, ◌>>=◌,
}
use sr_server.Event.{
  Core, Roll, EdgeRoll, Reroll, InitiativeRoll, Event, roll, edge_roll, reroll, initiative_roll,
  player_join, event_type_roll, event_type_edge_roll, event_type_reroll, event_type_initiative_roll,
  event_type_player_join,
}

unfoldable pub read_core : Fields → Result Mismatch Core
read_core fs = do
  id ← read_int (get_field (codes "id") fs)
  ty ← read_text (get_field (codes "ty") fs)
  edit ← read_int (get_field (codes "edit") fs)
  share ← read_int (get_field (codes "share") fs)
  player_id ← read_text (get_field (codes "pID") fs)
  player_name ← read_text (get_field (codes "pName") fs)
  ok (record {
    id = id;
    ty = ty;
    edit = edit;
    share = share;
    player_id = player_id;
    player_name = player_name;
  })

unfoldable pub read_roll : Fields → Result Mismatch Roll
unfolding read_core
read_roll fs = do
  core ← read_core fs
  title ← read_text (get_field (codes "title") fs)
  dice ← read_ints (get_field (codes "dice") fs)
  glitchy ← read_int (get_field (codes "glitchy") fs)
  ok (record { core = core; title = title; dice = dice; glitchy = glitchy })

read_edge_roll : Fields → Result Mismatch EdgeRoll
unfolding read_core
read_edge_roll fs = do
  core ← read_core fs
  title ← read_text (get_field (codes "title") fs)
  rounds ← read_rounds (get_field (codes "rounds") fs)
  glitchy ← read_int (get_field (codes "glitchy") fs)
  ok (record { core = core; title = title; rounds = rounds; glitchy = glitchy })

read_reroll : Fields → Result Mismatch Reroll
unfolding read_core
read_reroll fs = do
  core ← read_core fs
  prev_id ← read_int (get_field (codes "prevID") fs)
  title ← read_text (get_field (codes "title") fs)
  rounds ← read_rounds (get_field (codes "rounds") fs)
  glitchy ← read_int (get_field (codes "glitchy") fs)
  ok (record { core = core; prev_id = prev_id; title = title; rounds = rounds; glitchy = glitchy })

read_initiative_roll : Fields → Result Mismatch InitiativeRoll
unfolding read_core
read_initiative_roll fs = do
  core ← read_core fs
  title ← read_text (get_field (codes "title") fs)
  base ← read_int (get_field (codes "base") fs)
  dice ← read_ints (get_field (codes "dice") fs)
  seized ← read_bool (get_field (codes "seized") fs)
  blitzed ← read_bool (get_field (codes "blitzed") fs)
  ok (record {
    core = core;
    title = title;
    base = base;
    dice = dice;
    seized = seized;
    blitzed = blitzed;
  })

-- the switch on the type
unfoldable pub parse_as : Text → Fields → Result Mismatch Event
unfolding read_core read_roll read_edge_roll read_reroll read_initiative_roll
parse_as ty fs =
    if text_eq ty event_type_roll
    then (do e ← read_roll fs; ok (roll e))
    else if text_eq ty event_type_edge_roll
    then (do e ← read_edge_roll fs; ok (edge_roll e))
    else if text_eq ty event_type_reroll
    then (do e ← read_reroll fs; ok (reroll e))
    else if text_eq ty event_type_initiative_roll
    then (do e ← read_initiative_roll fs; ok (initiative_roll e))
    else if text_eq ty event_type_player_join
    then (do c ← read_core fs; ok (player_join c))
    else err mismatch

typed : Option Json → Fields → Result Mismatch Event
unfolding parse_as
typed none fs = err mismatch
typed (some (str ty)) fs = parse_as ty fs
typed (some _) fs = err mismatch

-- Parse
unfoldable pub parse : Json → Result Mismatch Event
unfolding typed
parse (obj fs) = typed (get_field (codes "ty") fs) fs
parse _ = err mismatch
