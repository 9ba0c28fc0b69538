-- ===== src/GameTable.antt =====
-- Network play between two seats, packages/game-sync/src/table.ts.
pub mod Principals
pub mod Opening
pub mod Rate
pub mod Table
pub mod Seats
pub mod Turns
pub mod Flood
pub mod Messages
pub mod Parsing
pub mod Tokens
pub mod Signing
mod Tests
