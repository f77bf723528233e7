-- ===== src/Game.antt =====
-- game/: the events and players of a game in redis, and what its players are sent.
mod Tests
pub mod Channels
pub mod EventManager
pub mod Players
pub mod Subscribe
