-- ===== src/Family.antt =====
-- The family graph: packages/family-graph/src/authorize.ts.
pub mod Stamps
pub mod Authorize
pub mod Gate
pub mod Refusals
mod Tests
