-- ===== src/Storage.antt =====
-- The retention policy, packages/storage/src/retention.ts.
pub mod Digest
pub mod Listing
mod Tests
