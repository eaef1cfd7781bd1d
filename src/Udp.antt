-- ===== src/Udp.antt =====
-- The UDP mode (src/modes/udp.rs): datagram header, loss and jitter, receiver and sender.
pub mod Header
pub mod LossJitter
pub mod Window
pub mod Step
pub mod Counts
pub mod Missing
pub mod Tally
pub mod Loss
pub mod Jitter
pub mod Clock
pub mod Steady
pub mod Order
pub mod Serve
pub mod ServeLaws
pub mod Delivery
pub mod Report
pub mod Drive
pub mod Pacing
pub mod Sender
pub mod Finish
pub mod Rate
pub mod Balance
pub mod EndToEnd
mod Replay
mod Tests
