-- ===== src/Core.antt =====
-- The core value types of Runtime/include/core: statuses, tensor descriptions, buffers and views.
pub mod Status
pub mod DataType
pub mod Shape
pub mod Spec
pub mod Buffer
pub mod Tensor
mod Tests
