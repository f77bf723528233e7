-- ===== src/Redis.antt =====
-- Redis and its client library, which the program only calls: an interface, taken as a parameter.
-- A `Db` stands for the server, the connection and the network between. Each operation is one call
-- of redigo with the conversion of its reply; the arguments of a command keep their Go type.
pub mod Documented
pub mod Transaction
pub mod Memory
use sr_server.Prelude.{ℕ, Bool, List, Text, ℤ, Exec}
use sr_server.Json.{Json}

-- A field of a hash, as a struct has it.
pub data Value : Type 0 where
  text : Text → Value
  num : ℤ → Value
  flag : Bool → Value

abbrev pub Hash : Type 0
Hash = List (Text × Value)

-- A bound of a range of scores.
pub data Bound : Type 0 where
  at : ℤ → Bound
  minus_inf plus_inf : Bound

-- The commands whose reply is a number.
pub data Command : Type 0 where
  exists del incr persist : Text → Command
  expire : Text → ℤ → Command
  hset : Text → Hash → Command
  hincrby : Text → Text → ℤ → Command
  sadd : Text → Text → Command
  zadd_nx : Text → ℤ → Json → Command
  zremrangebyscore : Text → ℤ → ℤ → Command
  publish : Text → Json → Command

-- redis.ErrNil, and every other error
pub data RedisError : Type 0 where
  no_value failed : RedisError

pub record Redis : Type 1 where
  pub Db : Type 0
  -- conn.Send of MULTI and of a command in it, and redis.Ints(conn.Do("EXEC"))
  pub multi : Exec Db RedisError (Unit {0})
  pub send : Command → Exec Db RedisError (Unit {0})
  pub exec_ints : Exec Db RedisError (List ℤ)
  -- redis.Int or redis.Bool of conn.Do
  pub call : Command → Exec Db RedisError ℤ
  -- redis.String of HMSET
  pub hmset : Text → Hash → Exec Db RedisError (Unit {0})
  pub hgetall : Text → Exec Db RedisError Hash
  -- redis.String of HGET, redis.Int of GET
  pub hget : Text → Text → Exec Db RedisError Text
  pub get_int : Text → Exec Db RedisError ℤ
  pub smembers : Text → Exec Db RedisError (List Text)
  pub watch : Text → Exec Db RedisError (Unit {0})
  pub unwatch : Exec Db RedisError (Unit {0})
  -- HGETALL in a MULTI, and redis.Values(conn.Do("EXEC")); the empty list is an aborted EXEC
  pub send_hgetall : Text → Exec Db RedisError (Unit {0})
  pub exec_hashes : Exec Db RedisError (List Hash)
  -- redis.Strings of ZREVRANGEBYSCORE key newest oldest LIMIT 0 count, and of KEYS prefix*
  pub zrevrangebyscore : Text → Bound → Bound → ℕ → Exec Db RedisError (List Json)
  pub keys : Text → Exec Db RedisError (List Text)
