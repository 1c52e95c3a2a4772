-- ===== src/Memory.antt =====
-- The buffer pools of Runtime/include/memory.
pub mod BufferPool
mod Tests
