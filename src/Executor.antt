-- ===== src/Executor.antt =====
-- The task executors of Runtime/include/executor.
pub mod Task
pub mod Serial
pub mod Staged
pub mod Parallel
pub mod Interface
pub mod Frames
pub mod Batch
mod Tests
