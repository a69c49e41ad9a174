-- ===== src/Execution.antt =====
-- Assisted execution of approved changes: burnlens/execution.
pub mod Models
pub mod Storage
pub mod Messages
pub mod Service
mod Tests
