-- ===== src/Game/Channels.antt =====
-- game/eventManager.go and game/subscribe.go: which channel carries a message, and which channels
-- a player listens to.
pub mod Privacy
use sr_server.Prelude.{
  Bool, ◌&&◌, ◌||◌, Option, none, some, List, [], ◌∷◌, ◌++◌, if◌then◌else◌, Text, codes, text_eq,
  eq_ℤ, has_prefix,
}
use sr_server.Player.{Player}
use sr_server.Event.{Event, get_share, get_player_id}
use sr_server.Event.Share.{share_in_game, share_private}

-- "history:" + gameID and the other keys that are made so
unfoldable pub channel : Text → Text → Text
channel prefix id = prefix ++ id

-- prefix + string(playerID) + ":" + gameID
unfoldable pub private_channel : Text → Text → Text → Text
private_channel prefix player_id game_id = prefix ++ (player_id ++ b':' ∷ game_id)

abbrev pub history : Text
history = codes "history:"

abbrev pub updates : Text
updates = codes "update:"

-- PlayerCanSeeEvent
unfoldable pub player_can_see_event : Player → Event → Bool
player_can_see_event plr evt =
    eq_ℤ (get_share evt) share_in_game
    || (eq_ℤ (get_share evt) share_private && text_eq (get_player_id evt) plr.id)

-- EventChannel and UpdateChannel; `none` is the panic on a share that is neither
unfoldable pub shared_channel : Text → Text → Event → Option Text
unfolding channel private_channel
shared_channel prefix game_id evt =
    if eq_ℤ (get_share evt) share_in_game
    then some (channel prefix game_id)
    else if eq_ℤ (get_share evt) share_private
    then some (private_channel prefix (get_player_id evt) game_id)
    else none

unfoldable pub event_channel : Text → Event → Option Text
unfolding shared_channel
event_channel = shared_channel history

unfoldable pub update_channel : Text → Event → Option Text
unfolding shared_channel
update_channel = shared_channel updates

-- the channels that Subscribe subscribes to
unfoldable pub subscriptions : Text → Text → List Text
unfolding channel private_channel
subscriptions game_id player_id =
    channel history game_id
    ∷ private_channel history player_id game_id
    ∷ channel updates game_id
    ∷ private_channel updates player_id game_id
    ∷ []

-- MessageTypeEvent and MessageTypeUpdate
pub data MessageType : Type 0 where
  message_type_event message_type_update : MessageType

-- the type that subscribeTask gives to a message, by its channel
unfoldable pub message_type : Text → MessageType
unfolding has_prefix
message_type name =
    if has_prefix name (codes "history") then message_type_event else message_type_update
