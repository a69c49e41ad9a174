-- ===== src/Trust.antt =====
-- Earned autonomy of agents: burnlens/trust/calculator.py, engine.py, models.py and storage.py.
pub mod Calculator
pub mod Engine
mod Tests
