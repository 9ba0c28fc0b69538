-- ===== src/Signal.antt =====
-- signal/src/signal.ts: the come-back signal.
pub mod Catalogue
pub mod Priority
pub mod Fairness
pub mod Delivery
pub mod Ceiling
mod Tests
