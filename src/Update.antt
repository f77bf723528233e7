-- ===== src/Update.antt =====
-- update/: the updates that players are sent, and their JSON. A Go map is held as its fields in the
-- order of their names, in which encoding/json writes them.
use sr_server.Prelude.{
  Bool, true, false, Option, none, some, List, [], ◌∷◌, ltb, ◌==◌, if◌then◌else◌, ◌++◌, Text, codes,
  text_eq, ℤ, pos,
}
use sr_server.Json.{Json, bool, int, str, arr, obj, nil, cons, Fields, end, field}
use sr_server.Event.{Event, get_id, get_edit}
use sr_server.Player.{Player, info, info_json}
use sr_server.Player.Stored.{player_prefix, flatten}
use sr_server.Redis.{Value, text, num, flag, Hash, Command, hset}

-- The order of byte strings.
pub text_lt : Text → Text → Bool
text_lt s [] = false
text_lt [] (b ∷ t) = true
text_lt (a ∷ s) (b ∷ t) = let rest = text_lt s t in if a == b then rest else ltb a b

-- m[k] = v
unfoldable pub put_key {ℓ} : {V : Type ℓ} → Text → V → List (Text × V) → List (Text × V)
unfolding text_lt
put_key k v [] = (k, v) ∷ []
put_key k v ((j, w) ∷ m) =
    let rest = put_key k v m in
    if text_eq j k then (k, v) ∷ m else if text_lt k j then (k, v) ∷ (j, w) ∷ m else (j, w) ∷ rest

abbrev pub Diff : Type 0
Diff = List (Text × Json)

diff_fields : Diff → Fields
diff_fields [] = end
diff_fields ((k, v) ∷ m) = field k v (diff_fields m)

-- UpdateTypeEvent, UpdateTypePlayer
abbrev pub update_type_event : Text
update_type_event = codes "evt"

abbrev pub update_type_player : Text
update_type_player = codes "plr"

-- eventDiff and eventDelete
pub data EventUpdate : Type 0 where
  event_diff : ℤ → ℤ → Diff → EventUpdate
  event_delete : ℤ → EventUpdate

-- EventID
unfoldable pub event_id : EventUpdate → ℤ
event_id (event_diff id edited diff) = id
event_id (event_delete id) = id

-- Time
unfoldable pub time : EventUpdate → ℤ
time (event_diff id edited diff) = edited
time (event_delete id) = pos 0

-- the two MarshalJSON of event updates
unfoldable pub event_update_json : EventUpdate → Json
unfolding diff_fields
event_update_json (event_diff id edited diff) = arr (
    cons (str update_type_event)
      (cons (int id) (cons (obj (diff_fields diff)) (cons (int edited) nil))))
event_update_json (event_delete id) =
    arr (cons (str update_type_event) (cons (int id) (cons (str (codes "del")) nil)))

-- ForEventDiff
unfoldable pub for_event_diff : Event → Diff → EventUpdate
for_event_diff event diff = event_diff (get_id event) (get_edit event) diff

-- ForEventRename
unfoldable pub for_event_rename : Event → Text → EventUpdate
unfolding put_key
for_event_rename event new_title =
    event_diff (get_id event) (get_edit event) (put_key (codes "title") (str new_title) [])

-- ForSeizeInitiative
unfoldable pub for_seize_initiative : Event → EventUpdate
unfolding put_key
for_seize_initiative event =
    event_diff (get_id event) (get_edit event) (put_key (codes "seized") (bool true) [])

-- ForEventDelete
unfoldable pub for_event_delete : ℤ → EventUpdate
for_event_delete id = event_delete id

-- PlayerOnline, playerDiff and playerAdd
pub data PlayerUpdate : Type 0 where
  player_online : Text → Bool → PlayerUpdate
  player_diff : Text → Hash → PlayerUpdate
  player_add : Player → PlayerUpdate

abbrev value_json : Value → Json
value_json (text t) = str t
value_json (num n) = int n
value_json (flag b) = bool b

abbrev hash_fields : Hash → Fields
hash_fields [] = end
hash_fields ((k, v) ∷ m) = field k (value_json v) (hash_fields m)

-- the JSON of a map of player fields
abbrev pub hash_json : Hash → Json
hash_json m = obj (hash_fields m)

-- PlayerID
unfoldable pub player_id : PlayerUpdate → Text
player_id (player_online id online) = id
player_id (player_diff id diff) = id
player_id (player_add player) = player.id

-- IsEmpty
unfoldable pub is_empty : PlayerUpdate → Bool
is_empty (player_online id online) = false
is_empty (player_diff id []) = true
is_empty (player_diff id (_ ∷ _)) = false
is_empty (player_add player) = false

-- the three MarshalJSON of player updates
unfoldable pub player_update_json : PlayerUpdate → Json
unfolding info info_json
player_update_json (player_online id online) = arr (
    cons (str update_type_player)
      (cons (str id) (cons (obj (field (codes "online") (bool online) end)) nil)))
player_update_json (player_diff id diff) =
    arr (cons (str update_type_player) (cons (str id) (cons (obj (hash_fields diff)) nil)))
player_update_json (player_add player) =
    arr (
      cons (str update_type_player) (cons (str (codes "add")) (cons (info_json (info player)) nil)))

-- MakeRedisCommand; `none` is a panic, of PlayerOnline's method or of RedisKey. The command sets
-- fields of the hash at its key.
unfoldable pub make_redis_command : PlayerUpdate → Option Command
make_redis_command (player_online id online) = none
make_redis_command (player_diff id diff) = some (hset (player_prefix ++ id) diff)
make_redis_command (player_add player) = some (hset (player_prefix ++ player.id) (flatten player))
