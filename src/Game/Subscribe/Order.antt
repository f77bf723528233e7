-- ===== src/Game/Subscribe/Order.antt =====
-- What a subscription writes to its stream.
use sr_server.Prelude.{ℕ, zero, suc, ◌≡◌, ◌≢◌, ◌≤◌, true, false, List, [], ◌∷◌, ◌++◌, length}
use sr_server.Game.Subscribe.{
  Message, blank, Failure, Task, at_check, at_receive, returned, at_send, at_error, System,
}

-- so many blank messages before the older ones
unfoldable pub blanks : ℕ → List Message → List Message
blanks zero ms = ms
blanks (suc n) ms = blank ∷ blanks n ms

-- What of a task's messages is still on its way.
abbrev pending : Task → List Message
pending (at_send m) = m ∷ []
pending _ = []

-- The messages of redis are those on their way or lost, `rest`, and those that were written, `done`.
record Inv (s : System) : Type 0 where
  done : List Message
  rest : List Message
  extra : ℕ
  all : s.received ≡ rest ++ done
  one : length rest ≤ 1
  shown : s.written ≡ blanks extra done
  cancels : s.listening ≡ false → s.cancelled ≡ true
  closed : s.task ≢ returned → extra ≡ 0
  sends : (m : Message) → s.task ≡ at_send m → rest ≡ m ∷ []
  receiving : s.task ≡ at_receive → rest ≡ []
  checking : s.task ≡ at_check → s.listening ≡ true → rest ≡ []
  reporting : (e : Failure) → s.task ≡ at_error e false → rest ≡ []
