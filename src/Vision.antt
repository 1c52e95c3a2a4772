-- ===== src/Vision.antt =====
-- The image types of Runtime/include/vision.
pub mod FrameSpec
pub mod Frame
mod Tests
