-- ===== src/Custody/Rules.antt =====
-- Which rule decides a date in schedule.ts.
use olive_branch.Prelude.{
  ℕ, ◌+◌, ◌*◌, ◌≤◌, String, str_lt, ◌≡◌, ◌≢◌, ◌⊎◌, Bool, true, false, none, some, IsOrder, Mem,
}
use olive_branch.Time.Luxon.{Luxon}
use olive_branch.Custody.Schedule.{Order, HolidayRule, DaySide, holiday, pattern, pattern_side_on}

-- The day of the year, as a text MM-dd, is in the rule's window, both ends included; a window whose end
-- comes before its start wraps the new year.
abbrev pub InSeason : HolidayRule → String → Type 0
InSeason r md =
    ((str_lt r.end_month_day r.start_month_day ≡ false)
      × (str_lt md r.start_month_day ≡ false)
      × (str_lt r.end_month_day md ≡ false))
    ⊎ ((str_lt r.end_month_day r.start_month_day ≡ true)
        × ((str_lt md r.start_month_day ≡ false) ⊎ (str_lt r.end_month_day md ≡ false)))

-- The day that a rule gives in a year: in an even year to its side of even years, in an odd year to the
-- other one.
pub record ByRule (r : HolidayRule) (year : ℕ) (d : DaySide) : Type 0 where
  pub from_holiday : d.source ≡ holiday
  pub named : d.holiday_name ≡ some r.name
  pub even_year : (k : ℕ) → year ≡ 2 * k → d.side ≡ r.even_year_side
  pub odd_year : (k : ℕ) → year ≡ 2 * k + 1 → d.side ≢ r.even_year_side

module _ (l : Luxon) (locale_before : String → String → Bool) (order : IsOrder locale_before) where
  -- The day of the year of a date, as a text MM-dd.
  abbrev pub month_day_of : String → String
  month_day_of local_date = l.month_day (l.day_of local_date)

  -- A rule of the order whose window holds the date, where no rule whose window holds it has a greater
  -- priority, and none of the same priority starts later in the year.
  pub record Decides (o : Order) (local_date : String) (r : HolidayRule) : Type 0 where
    pub listed : Mem r o.holidays
    pub in_season : InSeason r (month_day_of local_date)
    pub highest :
        (q : HolidayRule)
        → Mem q o.holidays
        → InSeason q (month_day_of local_date)
        → q.priority ≤ r.priority
    pub latest :
        (q : HolidayRule)
        → Mem q o.holidays
        → InSeason q (month_day_of local_date)
        → q.priority ≡ r.priority
        → locale_before r.start_month_day q.start_month_day ≡ false

  -- A day that the pattern gives.
  pub record ByPattern (o : Order) (local_date : String) (d : DaySide) : Type 0 where
    pub from_pattern : d.source ≡ pattern
    pub nameless : d.holiday_name ≡ none
    pub cycle_side : pattern_side_on l o local_date ≡ some d.side
