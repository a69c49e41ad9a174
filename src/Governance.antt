-- ===== src/Governance.antt =====
-- Policies over agent actions: burnlens/governance/models.py and burnlens/governance/engine.py.
pub mod Models
pub mod Storage
pub mod Engine
mod Tests
