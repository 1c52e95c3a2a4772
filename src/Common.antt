-- ===== src/Common.antt =====
-- The queue of Runtime/include/common that connects the stages of every executor.
pub mod BoundedQueue
mod Tests
