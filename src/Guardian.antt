-- ===== src/Guardian.antt =====
-- The group call of siblings, packages/guardian/src/pending.ts.
pub mod Group
pub mod Turns
mod Tests
