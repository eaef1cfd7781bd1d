-- ===== src/Proto.antt =====
-- The control protocol (src/proto.rs): messages and their framing.
pub mod Messages
pub mod Stream
pub mod Frame
pub mod RoundTrip
pub mod Sequence
pub mod Memory
mod Replay
mod Tests
