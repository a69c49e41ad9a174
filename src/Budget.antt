-- ===== src/Budget.antt =====
-- Real-time budgets: burnlens/budget_engine.py.
pub mod Estimate
pub mod Policy
pub mod Engine
mod Tests
