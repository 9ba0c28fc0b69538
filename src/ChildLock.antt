-- ===== src/ChildLock.antt =====
-- The child lock, packages/child-lock/src/lock.ts. An instant is a number of milliseconds since
-- 1970; a stored instant, which the code writes by `toISOString` and reads back by `new Date`, is
-- that number.
pub mod Lock
pub mod Escalation
pub mod Lockout
mod Tests
