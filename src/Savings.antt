-- ===== src/Savings.antt =====
-- Verified savings: burnlens/verification/engine.py, models.py and storage.py.
pub mod Engine
mod Tests
