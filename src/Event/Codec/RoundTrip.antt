-- ===== src/Event/Codec/RoundTrip.antt =====
-- What is written for an event is read back as that event.
use sr_server.Prelude.{◌≡◌, Bool, ok, ℤ, zero, suc, pos, negsuc, text_eq, Text, List}
use sr_server.Json.{read_items-int_items, read_round_items-round_items}
use sr_server.Event.{
  Event, Core, roll, edge_roll, reroll, initiative_roll, player_join, event_type_roll,
  event_type_edge_roll, event_type_reroll, event_type_initiative_roll, event_type_player_join,
}
use sr_server.Event.Codec.Reading.{parse}
use sr_server.Event.Codec.Writing.{marshal, IsTyped}

-- The core of an event, its parts named so that a proof can split on the edit time.
abbrev core_with : ℤ → ℤ → ℤ → Text → Text → Text → Core
core_with edit id share ty player_id player_name = record {
  id = id;
  ty = ty;
  edit = edit;
  share = share;
  player_id = player_id;
  player_name = player_name;
}

module _ (id share : ℤ) (ty player_id player_name : Text) where
  roll_back :
      (edit : ℤ) (title : Text) (dice : List ℤ) (glitchy : ℤ)
      → ty ≡ event_type_roll
      → (let e : Event = roll (record {
        core = core_with edit id share ty player_id player_name;
        title = title;
        dice = dice;
        glitchy = glitchy;
      }) in
          parse (marshal e) ≡ ok e)
  unfolding parse marshal text_eq
  roll_back (pos zero) title dice glitchy h = rw h (rw read_items-int_items)
  roll_back (pos (suc n)) title dice glitchy h = rw h (rw read_items-int_items)
  roll_back (negsuc n) title dice glitchy h = rw h (rw read_items-int_items)

  edge_roll_back :
      (edit : ℤ) (title : Text) (rounds : List (List ℤ)) (glitchy : ℤ)
      → ty ≡ event_type_edge_roll
      → (let e : Event = edge_roll (record {
        core = core_with edit id share ty player_id player_name;
        title = title;
        rounds = rounds;
        glitchy = glitchy;
      }) in
          parse (marshal e) ≡ ok e)
  unfolding parse marshal text_eq
  edge_roll_back (pos zero) title rounds glitchy h = rw h (rw read_round_items-round_items)
  edge_roll_back (pos (suc n)) title rounds glitchy h = rw h (rw read_round_items-round_items)
  edge_roll_back (negsuc n) title rounds glitchy h = rw h (rw read_round_items-round_items)

  reroll_back :
      (edit : ℤ) (prev_id : ℤ) (title : Text) (rounds : List (List ℤ)) (glitchy : ℤ)
      → ty ≡ event_type_reroll
      → (let e : Event = reroll (record {
        core = core_with edit id share ty player_id player_name;
        prev_id = prev_id;
        title = title;
        rounds = rounds;
        glitchy = glitchy;
      }) in
          parse (marshal e) ≡ ok e)
  unfolding parse marshal text_eq
  reroll_back (pos zero) prev_id title rounds glitchy h = rw h (rw read_round_items-round_items)
  reroll_back (pos (suc n)) prev_id title rounds glitchy h = rw h (rw read_round_items-round_items)
  reroll_back (negsuc n) prev_id title rounds glitchy h = rw h (rw read_round_items-round_items)

  initiative_roll_back :
      (edit : ℤ) (title : Text) (base : ℤ) (dice : List ℤ) (seized blitzed : Bool)
      → ty ≡ event_type_initiative_roll
      → (let e : Event = initiative_roll (record {
        core = core_with edit id share ty player_id player_name;
        title = title;
        base = base;
        dice = dice;
        seized = seized;
        blitzed = blitzed;
      }) in
          parse (marshal e) ≡ ok e)
  unfolding parse marshal text_eq
  initiative_roll_back (pos zero) title base dice seized blitzed h = rw h (rw read_items-int_items)
  initiative_roll_back (pos (suc n)) title base dice seized blitzed h =
      rw h (rw read_items-int_items)
  initiative_roll_back (negsuc n) title base dice seized blitzed h = rw h (rw read_items-int_items)

  player_join_back :
      (edit : ℤ)
      → ty ≡ event_type_player_join
      → (let e : Event = player_join (core_with edit id share ty player_id player_name) in
          parse (marshal e) ≡ ok e)
  unfolding parse marshal text_eq
  player_join_back (pos zero) h = rw h
  player_join_back (pos (suc n)) h = rw h
  player_join_back (negsuc n) h = rw h

pub parse-marshal : (e : Event) → IsTyped e → parse (marshal e) ≡ ok e
parse-marshal (roll e) h =
    roll_back e.core.id e.core.share e.core.ty e.core.player_id e.core.player_name e.core.edit
      e.title e.dice e.glitchy h
parse-marshal (edge_roll e) h =
    edge_roll_back e.core.id e.core.share e.core.ty e.core.player_id e.core.player_name e.core.edit
      e.title e.rounds e.glitchy h
parse-marshal (reroll e) h =
    reroll_back e.core.id e.core.share e.core.ty e.core.player_id e.core.player_name e.core.edit
      e.prev_id e.title e.rounds e.glitchy h
parse-marshal (initiative_roll e) h =
    initiative_roll_back e.core.id e.core.share e.core.ty e.core.player_id e.core.player_name
      e.core.edit e.title e.base e.dice e.seized e.blitzed h
parse-marshal (player_join c) h =
    player_join_back c.id c.share c.ty c.player_id c.player_name c.edit h
