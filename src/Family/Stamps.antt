-- ===== src/Family/Stamps.antt =====
-- A stored time as authorize.ts reads it: `null` (or an empty text, which is as false), a text that
-- `new Date` cannot read (NaN, which no comparison accepts), or an instant in milliseconds since
-- 1970.
use olive_branch.Prelude.{ℕ, Bool, true, false, ltb, leb}

pub data Stamp : Type 0 where
  absent : Stamp
  invalid : Stamp
  at : ℕ → Stamp

-- `s && new Date(s).getTime() <= t`
abbrev pub reached : Stamp → ℕ → Bool
reached (at s) t = leb s t
reached _ t = false

-- `s && new Date(s).getTime() > t`
abbrev pub ahead : Stamp → ℕ → Bool
ahead (at s) t = ltb t s
ahead _ t = false

-- `!s`
abbrev pub is_absent : Stamp → Bool
is_absent absent = true
is_absent _ = false
