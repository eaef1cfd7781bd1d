-- ===== src/Tcp.antt =====
-- The TCP mode (src/modes/tcp.rs): parallel streams, measured from the end of the warm-up.
pub mod Serve
pub mod Drive
pub mod ServeLaws
pub mod Bounded
pub mod Report
pub mod DriveLaws
pub mod DriveEnd
pub mod EndToEnd
mod Tests
