-- ===== src/Session.antt =====
-- session/session.go: sessions in redis, at session:<ID>.
mod Tests
pub mod Laws
pub mod Expiry
use sr_server.Prelude.{
  ℕ, ◌*◌, Bool, true, false, not, ◌||◌, Option, none, some, [], ◌∷◌, ◌++◌, if◌then◌else◌, Text,
  codes, find, pos, eq_ℤ, Exec, Result, ok, err, pure, lift, ◌>>=◌, ◌>>◌,
}
use sr_server.Fault.{
  Fault, nil_session, no_session_data, redis_error, redis, or_panic, expect, refuse_if,
}
use sr_server.Redis.{Redis, Value, text, flag, Hash, Command, exists, del, expire}
use sr_server.Player.{Player}
use sr_server.Player.Stored.{is_blank, scan_text}
use sr_server.Player.Stored

pub record Session : Type 0 where
  pub id : Text
  pub game_id : Text
  pub player_id : Text
  pub persist : Bool
  pub username : Text

-- Type
unfoldable pub session_type : Session → Text
session_type s = if s.persist then codes "persist" else codes "temp"

abbrev pub sessions : Text
sessions = codes "session:"

-- redisKey; `none` is its panic
unfoldable pub redis_key : Session → Option Text
redis_key s = if is_blank s.id then none else some (sessions ++ s.id)

-- redis.Args.AddFlat on the struct, by its tags; the ID has the tag "-"
unfoldable pub flatten : Session → Hash
flatten s =
    (codes "gameID", text s.game_id)
    ∷ (codes "playerID", text s.player_id)
    ∷ (codes "persist", flag s.persist)
    ∷ (codes "username", text s.username)
    ∷ []

abbrev pub scan_bool : Option Value → Result Fault Bool
scan_bool none = ok false
scan_bool (some (flag b)) = ok b
scan_bool (some _) = err redis_error

-- redis.ScanStruct on a hash into a Session of the given ID
unfoldable pub scan : {S : Type 0} → Text → Hash → Exec S Fault Session
scan id h = do
  game_id ← lift (scan_text (find (codes "gameID") h))
  player_id ← lift (scan_text (find (codes "playerID") h))
  persist ← lift (scan_bool (find (codes "persist") h))
  username ← lift (scan_text (find (codes "username") h))
  pure (record {
    id = id;
    game_id = game_id;
    player_id = player_id;
    persist = persist;
    username = username;
  })

-- TempSessionTTLSecs and PersistSessionTTLDays of config/config.go
pub record Ttls : Type 0 where
  pub temp_secs : ℕ
  pub persist_days : ℕ

-- time.Hour, in nanoseconds
abbrev pub hour : ℕ
hour = 3_600_000_000_000

abbrev no_data : Hash → Bool
no_data [] = true
no_data (_ ∷ _) = false

-- the ttl of Expire
unfoldable pub ttl : Ttls → Session → ℕ
ttl c s = if s.persist then c.persist_days * 24 * hour else c.temp_secs

module _ (r : Redis) (c : Ttls) where
  -- Expire
  unfoldable pub expire_session : Session → Exec r.Db Fault Bool
  unfolding ttl redis_key
  expire_session s = do
    key ← or_panic (redis_key s)
    n ← redis (r.call (expire key (pos (ttl c s))))
    pure (not (eq_ℤ n (pos 0)))

  -- New, with the session ID that it draws
  unfoldable pub new : Text → Text → Player → Bool → Exec r.Db Fault Session
  unfolding expire_session flatten redis_key
  new session_id game_id player persist = do
    let session : Session = record {
      id = session_id;
      game_id = game_id;
      player_id = player.id;
      persist = persist;
      username = player.username;
    }
    key ← or_panic (redis_key session)
    redis (r.hmset key (flatten session))
    expire_session session
    pure session

module _ (r : Redis) where
  -- Exists
  unfoldable pub session_exists : Text → Exec r.Db Fault Bool
  session_exists session_id = do
    refuse_if (is_blank session_id) nil_session
    n ← redis (r.call (exists (sessions ++ session_id)))
    pure (not (eq_ℤ n (pos 0)))

  -- GetByID
  unfoldable pub get_by_id : Text → Exec r.Db Fault Session
  unfolding scan
  get_by_id session_id = do
    refuse_if (is_blank session_id) nil_session
    found ← redis (r.hgetall (sessions ++ session_id))
    refuse_if (no_data found) no_session_data
    session ← scan session_id found
    refuse_if (is_blank session.game_id || is_blank session.player_id) no_session_data
    pure session

  -- GetPlayer
  unfoldable pub get_player : Session → Exec r.Db Fault Player
  get_player s = Stored.get_by_id r s.player_id

  -- Remove
  unfoldable pub remove : Session → Exec r.Db Fault (Unit {0})
  unfolding redis_key
  remove s = do
    key ← or_panic (redis_key s)
    result ← redis (r.call (del key))
    expect (eq_ℤ result (pos 1))

  -- Unexpire
  unfoldable pub unexpire : Session → Exec r.Db Fault Bool
  unfolding redis_key
  unexpire s = do
    key ← or_panic (redis_key s)
    n ← redis (r.call (Command.persist key))
    pure (not (eq_ℤ n (pos 0)))
