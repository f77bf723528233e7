-- ===== src/Game/Subscribe.antt =====
-- game/subscribe.go: the goroutine of subscribeTask, and the loop of handleSubscription of
-- routes/gameSubscription.go that receives from it. The channel of messages has no room of its own,
-- the channel of errors has room for one.
mod Tests
pub mod Order
pub mod Cleanup
use sr_server.Prelude.{ℕ, ◌≡◌, Bool, true, false, List, [], ◌∷◌, Text, codes, ◌==◌, if◌then◌else◌}
use sr_server.Game.Channels.{MessageType, message_type_event, message_type_update, message_type}

-- Message; its type is an int
pub record Message : Type 0 where
  pub ty : ℕ
  pub body : Text

abbrev pub type_number : MessageType → ℕ
type_number message_type_event = 1
type_number message_type_update = 2

-- the message that is made of a redis.Message
unfoldable pub made_of : Text → Text → Message
unfolding message_type
made_of name text = record { ty = type_number (message_type name); body = text }

-- what a receive from the closed channel gives
abbrev pub blank : Message
blank = record { ty = 0; body = [] }

-- streamChannel of writeMessageToStream
unfoldable pub stream_channel : Message → Text
stream_channel m = if m.ty == 2 then codes "update" else codes "event"

-- the errors that the task reports: of its context, of Receive, and of a value it does not know
pub data Failure : Type 0 where
  context_done receive_failed unexpected : Failure

-- Where the task stands: before its first select, in Receive, in a send of a message or of an
-- error, the last with whether it returns then, or returned, with both channels closed.
pub data Task : Type 0 where
  at_check at_receive returned : Task
  at_send : Message → Task
  at_error : Failure → Bool → Task

-- `cancelled` is of the context, `errs` the room of the channel of errors, `listening` whether the
-- loop of handleSubscription runs. What redis has sent and what has been written to the stream are
-- kept newest first.
pub record System : Type 0 where
  pub task : Task
  pub cancelled : Bool
  pub errs : List Failure
  pub listening : Bool
  pub received : List Message
  pub written : List Message

-- Subscribe has started the task
abbrev pub started : System
started = record {
  task = at_check;
  cancelled = false;
  errs = [];
  listening = true;
  received = [];
  written = [];
}

abbrev pub after_error : Bool → Task
after_error true = returned
after_error false = at_check

-- the handler returns, and its deferred cancel is called
abbrev pub left : System → System
left s = record s { listening = false; cancelled = true }

-- One step of the task, of the handler, or of the client that goes away.
pub data Step (s : System) : System → Type 0 where
  sees_done :
      s.task ≡ at_check
      → s.cancelled ≡ true
      → Step s (record s { task = at_error context_done true })
  goes_on : s.task ≡ at_check → s.cancelled ≡ false → Step s (record s { task = at_receive })
  receives_error : s.task ≡ at_receive → Step s (record s { task = at_error receive_failed true })
  receives :
      (name text : Text)
      → s.task ≡ at_receive
      → Step s (record s {
        task = at_send (made_of name text);
        received = made_of name text ∷ s.received;
      })
  receives_subscription : s.task ≡ at_receive → Step s (record s { task = at_check })
  receives_other : s.task ≡ at_receive → Step s (record s { task = at_error unexpected false })
  reports :
      (e : Failure) (last : Bool)
      → s.task ≡ at_error e last
      → s.errs ≡ []
      → Step s (record s { task = after_error last; errs = e ∷ [] })
  writes :
      (m : Message)
      → s.listening ≡ true
      → s.task ≡ at_send m
      → Step s (record s { task = at_check; written = m ∷ s.written })
  fails_to_write :
      (m : Message)
      → s.listening ≡ true
      → s.task ≡ at_send m
      → Step s (left (record s { task = at_check }))
  writes_blank :
      s.listening ≡ true → s.task ≡ returned → Step s (record s { written = blank ∷ s.written })
  takes_error :
      (e : Failure) → s.listening ≡ true → s.errs ≡ e ∷ [] → Step s (left (record s { errs = [] }))
  takes_no_error : s.listening ≡ true → s.task ≡ returned → s.errs ≡ [] → Step s (left s)
  leaves : s.listening ≡ true → Step s (left s)
  polls : s.listening ≡ true → Step s s
  disconnects : Step s (record s { cancelled = true })

-- The states that come after a state.
pub data Reach (s : System) : System → Type 0 where
  here : Reach s s
  next : {t u : System} → Reach s t → Step t u → Reach s u
