-- ===== src/Meter.antt =====
-- Throughput metering (src/meter.rs).
pub mod Counter
pub mod Fill
pub mod FillLaws
pub mod Sampler
pub mod Preview
pub mod SamplerLaws
pub mod Readout
pub mod ReadoutLaws
mod Replay
mod Tests
