-- ===== src/Lib.antt =====
-- The Shadowroller server, a Go program that keeps the games of its players in redis and serves them
-- over HTTP: players log in, roll dice, and see the events of their game as they are posted,
-- changed, shared and deleted. This library models its packages and proves what they promise.
--
-- Which file is about which part:
--   Dice            roll.go: FillRolls, ExplodingSixes, RerollFailures; Dice/Source is
--                   GenerateRolls, Dice/Spec the Rule of Six as a relation
--   Id              id/: event IDs, TUIDs, URL-safe IDs
--   Player          player/player.go; Player/Stored is what it keeps in redis
--   Event           event/: the event types; Event/Codec their JSON and Parse, Event/Share the
--                   shares, Event/Logging ParseTy, Event/Events the histories
--   Update          update/: the updates that players are sent
--   Game            game/: Game/Channels who is sent what, Game/EventManager the posts, deletions
--                   and updates of events, Game/Players the players of a game,
--                   Game/Subscribe the goroutine of a subscription as a step relation
--   Session, Auth   session/session.go and auth/auth.go
--   Routes          routes/: requests, errors and recoveryMiddleware; Routes/Rolls, Edits, Reads,
--                   Accounts and Profile are the handlers, Routes/Game the router of the paths that
--                   change events, Routes/Limits the rate limiter and localhostOnlyMiddleware,
--                   Routes/Subscription handleSubscription, Routes/Tasks routes/task.go,
--                   Routes/Frontend and Routes/Meta the files of the frontend and the health check
--   Server          main/main.go and routes/httpServer.go: servers and the main router
--   Setup           setup/defaultData.go: the games and players made at the start
--   Task            task/: the migration of a game's events
--   Shutdown        shutdownHandler/: the goroutine that waits for the interrupt and the clients
--   Config          config/config.go: the readers of the environment and VerifyConfig
--   Redis           the interface of the redis client, a parameter; Redis/Documented says what is
--                   relied on, Redis/Transaction is the block of MULTI, commands and EXEC that the
--                   packages write out each time, Redis/Memory a server that meets it all
--   Fault           the errors that the packages return, by the sentinel that errors.Is finds
--   Prelude, Json   shared helpers; JSON texts are held as trees
--   Samples         a game for the examples, which stand in the Tests modules
--
-- How the code corresponds. A function that takes a redis connection is an action on the state of
-- the interface `Redis`, and a panic is an error of its own. Whatever the code reads of the world is
-- an argument: the clock in nanoseconds, the rolls that the dice channel still gives, the random IDs,
-- the values of config/config.go, and the order in which Go ranges over a map of a request. A Go
-- string is the list of its bytes; an int is an integer, and the numbers of requests and events are
-- taken to stay within 64 bits; a float64 of a request is n / 2 ^ k. A handler ends in an answer, in
-- the status of an aborted request, in a panic or waiting for a die. What Documented says of redis
-- holds while no other client writes.
--
-- Bounds. ExplodingSixes runs on fuel, one more than the rolls that the channel gives, which is
-- enough since each round takes a roll at least. The attempts of GetPlayersIn are RedisRetries.
-- streamReadEvents runs on fuel, one more than the events up to the newest ID, which is enough since
-- each batch but the last goes on from an older event.
--
-- Not modelled: logging, headers of answers, the pool of connections, pings of a stream, origins and key
-- files of the configuration, fixPresite, and the settings of the HTTP library: CORS, cipher suites,
-- timeouts and cache headers.
-- Field names of JSON are matched exactly, and UIDs are random texts.
pub mod Prelude
pub mod Dice
pub mod Id
pub mod Json
pub mod Player
pub mod Event
pub mod Redis
pub mod Fault
pub mod Update
pub mod Game
pub mod Session
pub mod Auth
pub mod Samples
pub mod Config
pub mod Shutdown
pub mod Task
pub mod Server
pub mod Setup
pub mod Routes
