-- ===== src/LiveGame.antt =====
-- The live game stream: lcu/events.rs, the deltas between successive states of a live game and the
-- frames that carry them, and relay/app.py, which applies them to the state that it keeps.
pub mod Values
pub mod Dict
pub mod Arrays
pub mod Paths
pub mod Items
pub mod Delta
pub mod Receiver
pub mod Stream
pub mod Ingest
pub mod Payload
mod Tests
