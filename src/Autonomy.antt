-- ===== src/Autonomy.antt =====
-- The autonomous optimisation loop: burnlens/autonomy.
pub mod Models
pub mod Orchestrator
mod Tests
