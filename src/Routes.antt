-- ===== src/Routes.antt =====
-- routes/: what the HTTP handlers share: httpError.go, httpSession.go, readBodyJSON of request.go
-- and recoveryMiddleware of middleware.go. A handler ends in an answer, in an aborted request of
-- which only the status is kept, or in a panic.
pub mod Quiet
pub mod Steps
pub mod Ensures
pub mod Refusals
pub mod Rolls
pub mod Edits
pub mod Reads
pub mod Accounts
pub mod Profile
pub mod Limits
pub mod LoggedIn
pub mod Subscription
pub mod Tasks
pub mod Frontend
pub mod Meta
pub mod Game
mod Tests
use sr_server.Prelude.{
  ℕ, Bool, true, false, not, ◌&&◌, ◌||◌, Option, none, some, List, [], ◌∷◌, any, drop, length, ltb,
  if◌then◌else◌, Text, codes, text_eq, has_prefix, Exec, Result, ok, err, pure, raise, wrap,
  fail_if, ◌>>=◌, ◌>>◌,
}
use sr_server.Json.{Json, null, obj, Fields, end, field, Mismatch, mismatch}
use sr_server.Fault.{Fault, panicked}
use sr_server.Redis.{Redis}
use sr_server.Session.{Session}
use sr_server.Session

-- How a handler stops early: with the status of an aborted request, by a panic, or while it waits
-- for a die for ever.
pub data Stop : Type 0 where
  aborted : ℕ → Stop
  crashed waiting : Stop

-- What a handler that runs to its end has written.
pub data Answer : Type 0 where
  empty : Answer
  written : Json → Answer

-- What the client is sent; a status of 200 comes with what was written.
pub data Response : Type 0 where
  response : ℕ → Answer → Response
  unanswered : Response

-- The parts of a request that the handlers read. The body is `none` where it is no JSON text, or
-- has more after it.
pub record Request : Type 0 where
  pub authentication : Text
  pub session_param : Text
  pub body : Option Json

abbrev pub stop_of : ℕ → Fault → Stop
stop_of n panicked = crashed
stop_of n _ = aborted n

module _ {S A : Type 0} where
  -- httpDoErrorIf: the request is aborted where a call returned an error.
  unfoldable pub http_do_error_if : ℕ → Exec S Fault A → Exec S Stop A
  http_do_error_if n m = wrap (stop_of n) m

  -- httpBadRequestIf, httpUnauthorizedIf, httpInternalErrorIf, httpForbiddenIf
  abbrev pub http_bad_request_if : Exec S Fault A → Exec S Stop A
  http_bad_request_if = http_do_error_if 400

  abbrev pub http_unauthorized_if : Exec S Fault A → Exec S Stop A
  http_unauthorized_if = http_do_error_if 401

  abbrev pub http_internal_error_if : Exec S Fault A → Exec S Stop A
  http_internal_error_if = http_do_error_if 500

  -- the same for an error of encoding/json
  unfoldable pub read_or : ℕ → Result Mismatch A → Exec S Stop A
  read_or n (ok a) = pure a
  read_or n (err _) = raise (aborted n)

  -- a receive from the dice channel
  unfoldable pub received : Option A → Exec S Stop A
  received none = raise waiting
  received (some a) = pure a

module _ {S : Type 0} where
  unfoldable pub stop_if : Bool → Stop → Exec S Stop (Unit {0})
  stop_if test e = fail_if test e

  -- `if test { httpBadRequest(...) }` and its companions, httpDoMessage
  abbrev pub http_bad_request : Bool → Exec S Stop (Unit {0})
  http_bad_request test = stop_if test (aborted 400)

  abbrev pub http_unauthorized : Bool → Exec S Stop (Unit {0})
  http_unauthorized test = stop_if test (aborted 401)

  abbrev pub http_forbidden : Bool → Exec S Stop (Unit {0})
  http_forbidden test = stop_if test (aborted 403)

  abbrev pub http_not_found : Bool → Exec S Stop (Unit {0})
  http_not_found test = stop_if test (aborted 404)

-- recoveryMiddleware: an aborted request keeps its answer, any other panic is answered with 500.
unfoldable pub recovery : {S : Type 0} → Exec S Stop Answer → S → Response × S
recovery m d =
    let (res, d') = m d in
    elim res [
      | ok a ↦ (response 200 a, d')
      | err e ↦ elim e [
        | aborted n ↦ (response n empty, d')
        | crashed ↦ (response 500 empty, d')
        | waiting ↦ (unanswered, d')
      ]
    ]

abbrev known : List Text → Fields → Bool
known names end = true
known names (field k _ fs) = any (text_eq k) names && known names fs

-- readBodyJSON into a struct of these fields, which are read one by one: DisallowUnknownFields
-- rejects any other.
unfoldable pub read_body_json : List Text → Request → Result Mismatch Fields
read_body_json names request = elim request.body [
  | none ↦ err mismatch
  | some j ↦ elim j [
    | obj fs ↦ if known names fs then ok fs else err mismatch
    | null ↦ ok end
    | _ ↦ err mismatch
  ]
]

-- sessionFromHeader; auth[7:] panics on the text "Bearer" itself
unfoldable pub session_from_header : {S : Type 0} → Request → Exec S Stop Text
session_from_header request = do
  stop_if (not (has_prefix request.authentication (codes "Bearer"))) (aborted 401)
  stop_if (ltb (length request.authentication) 7) crashed
  pure (drop 7 request.authentication)

-- sessionFromParams
unfoldable pub session_from_params : {S : Type 0} → Request → Exec S Stop Text
session_from_params request = do
  let session = request.session_param
  http_unauthorized
      (text_eq session [] || text_eq session (codes "null") || text_eq session (codes "undefined"))
  pure session

module _ (r : Redis) where
  -- requestSession, with the httpUnauthorizedIf that follows it in every handler
  unfoldable pub request_session : Request → Exec r.Db Stop Session
  unfolding session_from_header http_do_error_if
  request_session request = do
    session_id ← session_from_header request
    http_unauthorized_if (Session.get_by_id r session_id)

  -- requestParamSession
  unfoldable pub request_param_session : Request → Exec r.Db Stop Session
  unfolding session_from_params http_do_error_if
  request_param_session request = do
    session_id ← session_from_params request
    http_unauthorized_if (Session.get_by_id r session_id)
