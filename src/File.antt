-- ===== src/File.antt =====
-- The file mode (src/modes/file.rs): bounded transfer, and the sampler that waits for its end.
pub mod Serve
pub mod Drive
pub mod ServeLaws
pub mod Stall
pub mod DriveLaws
pub mod DiskLaws
pub mod Content
pub mod EndToEnd
pub mod Progress
pub mod ProgressLaws
mod Tests
