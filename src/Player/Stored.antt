-- ===== src/Player/Stored.antt =====
-- player/player.go: players in redis. A player's hash is at player:<ID>, and the hash player_ids
-- maps usernames to IDs.
pub mod Laws
pub mod Taken
use sr_server.Prelude.{
  ◌&&◌, ◌||◌, Bool, true, false, not, Option, none, some, List, [], ◌∷◌, ◌++◌, if◌then◌else◌, Text,
  codes, find, ℤ, pos, negsuc, eq_ℤ, leb_ℤ, Exec, Result, ok, err, pure, raise, wrap, lift, ◌>>=◌,
  ◌>>◌,
}
use sr_server.Player.{Player}
use sr_server.Fault.{
  Fault, player_not_found, nil_player, redis_error, rejected, panicked, redis, or_panic, expect,
  refuse_if,
}
use sr_server.Redis.{
  Redis, RedisError, no_value, failed, Value, text, num, flag, Hash, hset, exists, hincrby,
}
use sr_server.Redis.Transaction.{transaction}

abbrev pub player_prefix : Text
player_prefix = codes "player:"

abbrev pub player_ids : Text
player_ids = codes "player_ids"

abbrev pub is_blank : Text → Bool
is_blank [] = true
is_blank (_ ∷ _) = false

-- RedisKey; `none` is its panic
unfoldable pub redis_key : Player → Option Text
redis_key p = if is_blank p.id then none else some (player_prefix ++ p.id)

-- redis.Args.AddFlat on the struct, by its tags; the ID has the tag "-"
unfoldable pub flatten : Player → Hash
flatten p =
    (codes "name", text p.name)
    ∷ (codes "hue", num p.hue)
    ∷ (codes "uname", text p.username)
    ∷ (codes "connections", num p.connections)
    ∷ (codes "onlineMode", num p.online_mode)
    ∷ []

-- redis.ScanStruct on one field: a missing field keeps the zero value.
abbrev pub scan_text : Option Value → Result Fault Text
scan_text none = ok []
scan_text (some (text t)) = ok t
scan_text (some _) = err redis_error

abbrev pub scan_int : Option Value → Result Fault ℤ
scan_int none = ok (pos 0)
scan_int (some (num n)) = ok n
scan_int (some _) = err redis_error

-- redis.ScanStruct on a hash into a Player of the given ID
unfoldable pub scan : {S : Type 0} → Text → Hash → Exec S Fault Player
scan id h = do
  name ← lift (scan_text (find (codes "name") h))
  hue ← lift (scan_int (find (codes "hue") h))
  username ← lift (scan_text (find (codes "uname") h))
  connections ← lift (scan_int (find (codes "connections") h))
  online_mode ← lift (scan_int (find (codes "onlineMode") h))
  pure (record {
    id = id;
    name = name;
    hue = hue;
    username = username;
    connections = connections;
    online_mode = online_mode;
  })

abbrev pub or_not_found : RedisError → Fault
or_not_found no_value = player_not_found
or_not_found failed = redis_error

abbrev pub is_none : Hash → Bool
is_none [] = true
is_none (_ ∷ _) = false

-- the replies that Create expects
abbrev pub created : List ℤ → Bool
created (ids ∷ fields ∷ []) = eq_ℤ ids (pos 1) && not (leb_ℤ fields (pos 2))
created _ = false

module _ (r : Redis) where
  -- Exists
  unfoldable pub player_exists : Text → Exec r.Db Fault Bool
  player_exists player_id = do
    refuse_if (is_blank player_id) nil_player
    n ← redis (r.call (exists (player_prefix ++ player_id)))
    pure (not (eq_ℤ n (pos 0)))

  -- GetByID
  unfoldable pub get_by_id : Text → Exec r.Db Fault Player
  unfolding scan
  get_by_id player_id = do
    refuse_if (is_blank player_id) nil_player
    found ← wrap or_not_found (r.hgetall (player_prefix ++ player_id))
    refuse_if (is_none found) player_not_found
    player ← scan player_id found
    refuse_if (is_blank player.username) nil_player
    pure player

  -- GetIDOf is used by nothing; GetByUsername
  unfoldable pub get_by_username : Text → Exec r.Db Fault Player
  unfolding get_by_id
  get_by_username username = do
    refuse_if (is_blank username) rejected
    player_id ← wrap or_not_found (r.hget player_ids username)
    refuse_if (is_blank player_id) player_not_found
    get_by_id player_id

  -- Create. RedisKey panics on an empty ID before EXEC, so then nothing is done.
  unfoldable pub create : Player → Exec r.Db Fault (Unit {0})
  unfolding redis_key flatten transaction
  create player = do
    key ← or_panic (redis_key player)
    results ← redis (
        transaction r (
          hset player_ids ((player.username, text player.id) ∷ [])
          ∷ hset key (flatten player)
          ∷ []))
    expect (created results)

  -- ModifyConnections
  unfoldable pub modify_connections : Text → ℤ → Exec r.Db RedisError ℤ
  modify_connections player_id amount =
      r.call (hincrby (player_prefix ++ player_id) (codes "connections") amount)
