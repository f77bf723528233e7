-- ===== src/Shutdown.antt =====
-- shutdownHandler/shutdownHandler.go: the goroutine that lets the server stop when an interrupt has
-- come and every client has closed. A client is a pointer, here its number.
mod Tests
pub mod Waiting
use sr_server.Prelude.{
  ℕ, zero, suc, ◌≡◌, ◌+◌, Bool, true, false, Option, none, some, List, [], ◌∷◌, ◌++◌, any, ◌==◌,
  if◌then◌else◌,
}

-- The variables of handleShutdown: the map of clients by its keys, sigintReceived, the counter of
-- WaitGroup, and the clients that were sent ShutdownInterrupt, the last one first.
pub record Handler : Type 0 where
  pub clients : List ℕ
  pub sigint_received : Bool
  pub wait_group : ℕ
  pub notified : List ℕ

-- What the select receives.
pub data Input : Type 0 where
  from_client : ℕ → Input
  sigint : Input

-- How a turn of the loop ends: with the next state, in os.Exit(1), or in the panic of a WaitGroup
-- whose counter goes below 0.
pub data Turn : Type 0 where
  goes_on : Handler → Turn
  exits panics : Turn

abbrev pub is_client : ℕ → List ℕ → Bool
is_client c = any (λ x. x == c)

-- delete(clients, client)
unfoldable pub delete : ℕ → List ℕ → List ℕ
delete c [] = []
delete c (x ∷ xs) = let rest = delete c xs in if x == c then xs else x ∷ rest

-- WaitGroup.Done
abbrev pub done : Handler → Turn
done h = elim h.wait_group [ zero ↦ panics | suc n ↦ goes_on (record h { wait_group = n }) ]

-- a client of the map closes
remove_client : ℕ → Handler → Turn
remove_client c h = done (record h { clients = delete c h.clients })

-- a new client is told at once if the interrupt has come
add_client : ℕ → Handler → Turn
add_client c h = goes_on (record h {
  clients = c ∷ h.clients;
  wait_group = suc h.wait_group;
  notified = if h.sigint_received then c ∷ h.notified else h.notified;
})

-- one turn of the loop
unfoldable pub turn : Input → Handler → Turn
unfolding remove_client add_client
turn (from_client c) h = if is_client c h.clients then remove_client c h else add_client c h
turn sigint h =
    if h.sigint_received
    then exits
    else done (record h { sigint_received = true; notified = h.clients ++ h.notified })

-- the state in which the loop starts: WaitGroup waits for an interrupt
abbrev pub started : Handler
started = record { clients = []; sigint_received = false; wait_group = 1; notified = [] }

-- The states that the loop comes to, by the inputs it has received.
pub data Reaches : List Input → Handler → Type 0 where
  at_start : Reaches [] started
  after :
      {inputs : List Input} {h h' : Handler} (i : Input)
      → Reaches inputs h
      → turn i h ≡ goes_on h'
      → Reaches (i ∷ inputs) h'
