-- ===== src/Game/Subscribe/Tests.antt =====
-- A subscription that is sent one message, and one whose client goes away while it waits.
use sr_server.Prelude.{◌≡◌, ◌≢◌, refl, [], ◌∷◌, codes}
use sr_server.Game.Subscribe.{
  Message, at_receive, at_send, returned, System, started, disconnects, here, next, left, made_of,
}
use sr_server.Game.Subscribe.Cleanup.{receives-IsStuck}

abbrev event : Message
event = record { ty = 1; body = codes "{}" }

is_event : made_of (codes "history:g") (codes "{}") ≡ event
unfolding made_of
is_event = refl

abbrev waiting : System
waiting = record started { task = at_receive }

abbrev shown : System
shown = record started { received = event ∷ []; written = event ∷ [] }

abbrev abandoned : System
abandoned = left waiting

abbrev sending : System
sending = record abandoned { task = at_send event; received = event ∷ [] }

receives-IsStuck_example : (sending.task ≡ at_send event) × (sending.task ≢ returned)
receives-IsStuck_example =
    receives-IsStuck abandoned sending sending event refl refl refl (next here disconnects)
