-- ===== src/Camera.antt =====
-- Runtime/include/camera and Runtime/src/camera: the frame sources.
pub mod Trigger
