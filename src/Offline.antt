-- ===== src/Offline.antt =====
-- offline/src/offline.ts: the outbox of what a child makes without a network.
pub mod Outbox
pub mod Keeping
pub mod Conflicts
mod Tests
