-- ===== src/Rooms.antt =====
-- The session runtime, packages/session-runtime/src/rooms.ts.
pub mod Session
pub mod Minting
mod Tests
