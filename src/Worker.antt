-- ===== src/Worker.antt =====
-- internal/worker/worker.go: one worker watches one stream.
pub mod World
pub mod Actions
pub mod Frame
pub mod Delivery
pub mod Alarm
pub mod Detection
pub mod Segments
pub mod Waiting
pub mod Upkeep
pub mod Program
pub mod Progress
pub mod Modes
