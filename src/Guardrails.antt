-- ===== src/Guardrails.antt =====
-- burnlens/guardrails: what an agent's task may spend, retry and repeat before it is paused or
-- stopped.
pub mod Models
pub mod Detector
pub mod Storage
pub mod Engine
mod Tests
