-- ===== src/Fault.antt =====
-- The errors of the game packages, by the sentinel that errors.Is finds in them, and the steps that
-- their functions share. A wrapped error keeps its sentinel.
use sr_server.Prelude.{◌≡◌, Bool, true, false, Option, none, some, Exec, ok, pure, raise, wrap}
use sr_server.Redis.{RedisError}

pub data Fault : Type 0 where
  -- player.ErrNotFound, player.ErrNilPlayer, game.ErrNotFound, game.ErrTransactionAborted,
  -- auth.ErrNotAuthorized, session.errNilSession, session.errNoSessionData
  player_not_found nil_player game_not_found transaction_aborted : Fault
  not_authorized nil_session no_session_data : Fault
  -- errors that no caller tells apart: of redis, of its replies, of parsing, and the rest
  redis_error unexpected_reply not_parsed rejected : Fault
  -- not an error: the goroutine panics
  panicked : Fault

module _ {S A : Type 0} where
  -- `if err != nil { return fmt.Errorf("redis error ...: %w", err) }`
  abbrev pub redis : Exec S RedisError A → Exec S Fault A
  redis = wrap (λ _. redis_error)

  -- a `panic` where there is no value
  abbrev pub or_panic : Option A → Exec S Fault A
  or_panic none = raise panicked
  or_panic (some a) = pure a

module _ {S : Type 0} where
  -- Go on only if a reply is as expected.
  abbrev pub expect : Bool → Exec S Fault (Unit {0})
  expect true = pure tt
  expect false = raise unexpected_reply

  abbrev pub refuse_if : Bool → Fault → Exec S Fault (Unit {0})
  refuse_if true e = raise e
  refuse_if false e = pure tt

-- A check of a reply changes nothing.
pub expect-state : {S : Type 0} (b : Bool) (d d' : S) → expect b d ≡ (ok tt, d') → d ≡ d'
expect-state true d d' h = cc
expect-state false d d' h = cc
