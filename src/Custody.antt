-- ===== src/Custody.antt =====
-- The custody schedule, packages/custody/src/schedule.ts.
pub mod Schedule
pub mod Blocks
pub mod Presence
pub mod Rules
pub mod Rotation
pub mod Runs
pub mod Waiting
mod Tests
