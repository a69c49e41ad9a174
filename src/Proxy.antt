-- ===== src/Proxy.antt =====
-- The gate of the proxy: virtual keys, and the checks of a request before it is forwarded.
pub mod Keys
pub mod Budgets
pub mod Headers
pub mod Models
pub mod KeyGate
pub mod Gate
pub mod Router
mod Tests
