-- ===== src/Time/Dates.antt =====
-- time.ts: the dates of a banked batch.
use olive_branch.Prelude.{
  ℕ, zero, suc, ◌-◌, String, Bool, true, ◌||◌, List, [], ◌∷◌, leb, ◌==◌, if◌then◌else◌,
}
use olive_branch.Time.Luxon.{Luxon}

pub data Cadence : Type 0 where
  daily weekdays weekly : Cadence

module _ (l : Luxon) where
  abbrev pub keeps : Cadence → ℕ → ℕ → Bool
  keeps daily start d = true
  keeps weekdays start d = leb (l.weekday d) 5
  keeps weekly start d = (d == start) || (l.weekday d == l.weekday start)

  -- The loop from day `d`, for as many days as are left up to the last one.
  unfoldable pub enumerate_from : ℕ → ℕ → Cadence → ℕ → List String
  enumerate_from zero d cadence start = []
  enumerate_from (suc left) d cadence start =
      let rest = enumerate_from left (suc d) cadence start in
      if keeps cadence start d then l.iso_date d ∷ rest else rest

  unfoldable pub enumerate_local_dates : String → String → Cadence → List String
  unfolding enumerate_from
  enumerate_local_dates start_local end_local cadence =
      enumerate_from (suc (l.day_of end_local) - l.day_of start_local) (l.day_of start_local)
        cadence (l.day_of start_local)
