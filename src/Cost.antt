-- ===== src/Cost.antt =====
-- What a request costs: burnlens/cost/pricing.py and burnlens/cost/calculator.py.
pub mod Pricing
pub mod Calculator
pub mod Usage
mod Tests
