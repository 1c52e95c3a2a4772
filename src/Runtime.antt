-- ===== src/Runtime.antt =====
-- Runtime/include/runtime: sessions that drive sources and an executor.
pub mod Cameras
