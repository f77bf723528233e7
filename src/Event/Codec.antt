-- ===== src/Event/Codec.antt =====
-- The JSON of events: what json.Marshal writes for each struct, by its tags, and event.Parse.
mod Reading
mod Writing
mod RoundTrip
unfoldable pub use Reading.{read_core, read_roll, parse, parse_as}
unfoldable pub use Writing.{marshal}
pub use Writing.{IsTyped}
pub use RoundTrip.{parse-marshal}
