-- ===== src/Ledger.antt =====
-- The court tier, packages/ledger/src/ledger.ts. A text is the list of its UTF-16 units.
pub mod Framing
pub mod Chain
pub mod Building
pub mod Tamper
pub mod Shares
pub mod Division
pub mod Rounding
pub mod Netting
pub mod Export
mod Tests
