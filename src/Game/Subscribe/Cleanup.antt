-- ===== src/Game/Subscribe/Cleanup.antt =====
-- When the task of a subscription ends, and when it never does.
use sr_server.Prelude.{◌≡◌, ◌≢◌, ap, ◌∙◌, false, ◌∷◌}
use sr_server.Game.Subscribe.{
  Message, at_receive, returned, at_send, System, Step, sees_done, goes_on, receives_error,
  receives, receives_subscription, receives_other, reports, writes, fails_to_write, writes_blank,
  takes_error, takes_no_error, leaves, polls, disconnects, Reach, here, next,
}

-- The handler is gone and the task waits for it to take a message.
abbrev IsStuck : Message → System → Type 0
IsStuck m s = (s.listening ≡ false) × (s.task ≡ at_send m)

Step-IsStuck : {m : Message} {s t : System} → Step s t → IsStuck m s → IsStuck m t
Step-IsStuck {m} {s} (sees_done e f) h = cc
Step-IsStuck {m} {s} (goes_on e f) h = cc
Step-IsStuck {m} {s} (receives_error e) h = cc
Step-IsStuck {m} {s} (receives name text e) h = cc
Step-IsStuck {m} {s} (receives_subscription e) h = cc
Step-IsStuck {m} {s} (receives_other e) h = cc
Step-IsStuck {m} {s} (reports x b e f) h = cc
Step-IsStuck {m} {s} (writes n e f) h = cc
Step-IsStuck {m} {s} (fails_to_write n e f) h = cc
Step-IsStuck {m} {s} (writes_blank e f) h = cc
Step-IsStuck {m} {s} (takes_error x e f) h = cc
Step-IsStuck {m} {s} (takes_no_error e f g) h = cc
Step-IsStuck {m} {s} (leaves e) h = cc
Step-IsStuck {m} {s} (polls e) h = h
Step-IsStuck {m} {s} disconnects h = h

Reach-IsStuck : {m : Message} {s t : System} → Reach s t → IsStuck m s → IsStuck m t
Reach-IsStuck here h = h
Reach-IsStuck (next r st) h = Step-IsStuck st (Reach-IsStuck r h)

-- Where the handler has returned while the task is in Receive, a message of redis leaves the task
-- in its send for ever: it never returns, so that it neither unsubscribes nor closes its channels.
pub receives-IsStuck :
    (s t u : System) (m : Message)
    → s.listening ≡ false
    → s.task ≡ at_receive
    → t ≡ record s { task = at_send m; received = m ∷ s.received }
    → Reach t u
    → (u.task ≡ at_send m) × (u.task ≢ returned)
receives-IsStuck s t u m gone at sent r =
    let (_, waits) =
      Reach-IsStuck {m = m} r (ap (λ x. x.listening) sent ∙ gone, ap (λ x. x.task) sent) in
    (waits, λ e. cc)

-- The task comes to return: it may take some steps of the handler and the client.
abbrev pub Returns : System → Type 0
Returns s = (t : System) × Reach s t × (t.task ≡ returned)
