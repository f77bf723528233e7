-- ===== src/Event/Codec/Writing.antt =====
-- json.Marshal on the event structs: the core's fields first, `edit` left out when it is 0.
use sr_server.Prelude.{zero, ◌≡◌, Bool, true, false, codes, ℤ, pos, if◌then◌else◌}
use sr_server.Json.{Json, int, str, bool, arr, obj, Fields, end, field, int_items, round_items}
use sr_server.Event.{
  Core, Event, roll, edge_roll, reroll, initiative_roll, player_join, event_type_roll,
  event_type_edge_roll, event_type_reroll, event_type_initiative_roll, event_type_player_join,
}

-- what `omitempty` tests
is_zero : ℤ → Bool
is_zero (pos zero) = true
is_zero _ = false

core_fields : Core → Fields → Fields
core_fields c rest =
    let tail =
      field (codes "share") (int c.share)
        (field (codes "pID") (str c.player_id) (field (codes "pName") (str c.player_name) rest)) in
    field (codes "id") (int c.id) (
      field (codes "ty") (str c.ty)
        (if is_zero c.edit then tail else field (codes "edit") (int c.edit) tail))

unfoldable pub marshal : Event → Json
unfolding core_fields is_zero
marshal (roll e) = obj (
    core_fields e.core (
      field (codes "title") (str e.title) (
        field (codes "dice") (arr (int_items e.dice))
          (field (codes "glitchy") (int e.glitchy) end))))
marshal (edge_roll e) = obj (
    core_fields e.core (
      field (codes "title") (str e.title) (
        field (codes "rounds") (arr (round_items e.rounds))
          (field (codes "glitchy") (int e.glitchy) end))))
marshal (reroll e) = obj (
    core_fields e.core (
      field (codes "prevID") (int e.prev_id) (
        field (codes "title") (str e.title) (
          field (codes "rounds") (arr (round_items e.rounds))
            (field (codes "glitchy") (int e.glitchy) end)))))
marshal (initiative_roll e) = obj (
    core_fields e.core (
      field (codes "title") (str e.title) (
        field (codes "base") (int e.base) (
          field (codes "dice") (arr (int_items e.dice)) (
            field (codes "seized") (bool e.seized)
              (field (codes "blitzed") (bool e.blitzed) end))))))
marshal (player_join c) = obj (core_fields c end)

-- The event's type field is the one of its struct, as the constructors of event/ set it.
abbrev pub IsTyped : Event → Type 0
IsTyped (roll e) = e.core.ty ≡ event_type_roll
IsTyped (edge_roll e) = e.core.ty ≡ event_type_edge_roll
IsTyped (reroll e) = e.core.ty ≡ event_type_reroll
IsTyped (initiative_roll e) = e.core.ty ≡ event_type_initiative_roll
IsTyped (player_join c) = c.ty ≡ event_type_player_join
