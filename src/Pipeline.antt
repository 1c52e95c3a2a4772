-- ===== src/Pipeline.antt =====
-- The pipeline's helpers of Runtime/include/pipeline.
pub mod Batch
pub mod Concat
pub mod Packet
pub mod BusinessFrames
mod Tests
mod FrameTests
