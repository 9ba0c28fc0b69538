-- ===== src/Budget.antt =====
-- The capability budget, packages/budget/src/budget.ts.
pub mod Resolve
pub mod Shedding
mod Tests
