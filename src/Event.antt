-- ===== src/Event.antt =====
-- event/: the events of a game's history, as event.go and its companions build and change them.
-- The JSON of an event is in Event/Codec, the searches in its text in Event/Logging.
mod Tests
pub mod Share
pub mod Codec
pub mod Events
pub mod Logging
use sr_server.Prelude.{ℕ, Bool, List, [], ◌∷◌, Text, codes, ℤ, pos}
use sr_server.Id.{new_event_id}
use sr_server.Player.{Player}
use Share.{share_in_game}

-- core
pub record Core : Type 0 where
  pub id : ℤ
  pub ty : Text
  pub edit : ℤ
  pub share : ℤ
  pub player_id : Text
  pub player_name : Text

pub record Roll : Type 0 where
  pub core : Core
  pub title : Text
  pub dice : List ℤ
  pub glitchy : ℤ

pub record EdgeRoll : Type 0 where
  pub core : Core
  pub title : Text
  pub rounds : List (List ℤ)
  pub glitchy : ℤ

pub record Reroll : Type 0 where
  pub core : Core
  pub prev_id : ℤ
  pub title : Text
  pub rounds : List (List ℤ)
  pub glitchy : ℤ

pub record InitiativeRoll : Type 0 where
  pub core : Core
  pub title : Text
  pub base : ℤ
  pub dice : List ℤ
  pub seized : Bool
  pub blitzed : Bool

-- The interface Event and the types that implement it.
pub data Event : Type 0 where
  roll : Roll → Event
  edge_roll : EdgeRoll → Event
  reroll : Reroll → Event
  initiative_roll : InitiativeRoll → Event
  player_join : Core → Event

-- EventTypeRoll and its companions
abbrev pub event_type_roll : Text
event_type_roll = codes "roll"

abbrev pub event_type_edge_roll : Text
event_type_edge_roll = codes "edgeRoll"

abbrev pub event_type_reroll : Text
event_type_reroll = codes "rerollFailures"

abbrev pub event_type_initiative_roll : Text
event_type_initiative_roll = codes "initiativeRoll"

abbrev pub event_type_player_join : Text
event_type_player_join = codes "playerJoin"

-- the embedded core, whose methods every event has
abbrev pub core_of : Event → Core
core_of (roll e) = e.core
core_of (edge_roll e) = e.core
core_of (reroll e) = e.core
core_of (initiative_roll e) = e.core
core_of (player_join c) = c

abbrev pub with_core : Event → Core → Event
with_core (roll e) c = roll (record e { core = c })
with_core (edge_roll e) c = edge_roll (record e { core = c })
with_core (reroll e) c = reroll (record e { core = c })
with_core (initiative_roll e) c = initiative_roll (record e { core = c })
with_core (player_join _) c = player_join c

abbrev pub get_id : Event → ℤ
get_id e = (core_of e).id

abbrev pub get_type : Event → Text
get_type e = (core_of e).ty

abbrev pub get_player_id : Event → Text
get_player_id e = (core_of e).player_id

abbrev pub get_player_name : Event → Text
get_player_name e = (core_of e).player_name

abbrev pub get_edit : Event → ℤ
get_edit e = (core_of e).edit

abbrev pub get_share : Event → ℤ
get_share e = (core_of e).share

abbrev pub set_share : Event → ℤ → Event
set_share e share = let c = core_of e in with_core e (record c { share = share })

abbrev pub set_edit : Event → ℤ → Event
set_edit e edited = let c = core_of e in with_core e (record c { edit = edited })

-- makeCore, at a clock that shows `now` nanoseconds
unfoldable pub make_core : ℕ → Text → Player → ℤ → Core
make_core now ty player share = record {
  id = new_event_id now;
  ty = ty;
  edit = pos 0;
  share = share;
  player_id = player.id;
  player_name = player.name;
}

-- ForRoll
unfoldable pub for_roll : ℕ → Player → ℤ → Text → List ℤ → ℤ → Roll
unfolding make_core
for_roll now player share title dice glitchy = record {
  core = make_core now event_type_roll player share;
  title = title;
  dice = dice;
  glitchy = glitchy;
}

-- ForEdgeRoll
unfoldable pub for_edge_roll : ℕ → Player → ℤ → Text → List (List ℤ) → ℤ → EdgeRoll
unfolding make_core
for_edge_roll now player share title rounds glitchy = record {
  core = make_core now event_type_edge_roll player share;
  title = title;
  rounds = rounds;
  glitchy = glitchy;
}

-- ForReroll
unfoldable pub for_reroll : ℕ → Player → Roll → List (List ℤ) → Reroll
unfolding make_core
for_reroll now player previous rounds = record {
  core = make_core now event_type_reroll player previous.core.share;
  prev_id = previous.core.id;
  title = previous.title;
  rounds = rounds;
  glitchy = previous.glitchy;
}

-- ForInitiativeRoll
unfoldable pub for_initiative_roll :
    ℕ → Player → ℤ → Text → ℤ → List ℤ → Bool → Bool → InitiativeRoll
unfolding make_core
for_initiative_roll now player share title base dice seized blitzed = record {
  core = make_core now event_type_initiative_roll player share;
  title = title;
  base = base;
  dice = dice;
  seized = seized;
  blitzed = blitzed;
}

-- ForPlayerJoin
unfoldable pub for_player_join : ℕ → Player → Event
unfolding make_core
for_player_join now player = player_join (make_core now event_type_player_join player share_in_game)
