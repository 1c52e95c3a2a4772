-- ===== src/Service.antt =====
-- The visionService side: Service/include and Service/src.
pub mod Map
pub mod Types
pub mod Registry
pub mod Handlers
pub mod Publishing
pub mod History
pub mod Session
mod Tests
