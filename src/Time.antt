-- ===== src/Time.antt =====
-- The clock, packages/time-engine/src/time.ts.
pub mod Luxon
pub mod Zones
pub mod Dates
pub mod Resolving
pub mod Listing
pub mod Sample
mod Tests
