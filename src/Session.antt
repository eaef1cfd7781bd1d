-- ===== src/Session.antt =====
-- The control session (src/session.rs): the handshake of both ends around a data path.
pub mod DataPath
pub mod Server
pub mod ServerLaws
pub mod Handshake
pub mod Client
pub mod ClientLaws
pub mod Dialogue
pub mod Proc
pub mod ProcLaws
pub mod Network
pub mod Transcript
pub mod Safety
pub mod ClientSafety
pub mod Accept
pub mod Print
pub mod Oversized
pub mod Lossless
pub mod Transfer
pub mod Streams
pub mod Sample
mod Tests
mod Runs
mod TransferRuns
mod StreamsRuns
