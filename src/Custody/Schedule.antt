-- ===== src/Custody/Schedule.antt =====
-- schedule.ts: the pattern, the holidays, and which side holds a date. A side is that of the decree,
-- A or B; `localeCompare` on two texts is a parameter.
use olive_branch.Prelude.{
  ℕ, zero, suc, ◌+◌, ◌-◌, ◌%◌, String, Bool, not, ◌&&◌, ◌||◌, Option, none, some, List, [], ◌∷◌,
  ltb, leb, ◌==◌, if◌then◌else◌, filterb, first_sorted, get_elem?, or_else, str_lt,
}
use olive_branch.Time.Luxon.{Luxon}

pub data Pattern : Type 0 where
  two_two_three two_two_five_five alternating_weeks week_on_week_off : Pattern

pub data Side : Type 0 where
  side_a side_b : Side

pub record HolidayRule : Type 0 where
  pub name : String
  pub start_month_day : String
  pub end_month_day : String
  pub even_year_side : Side
  pub priority : ℕ

pub record Order : Type 0 where
  pub pattern : Pattern
  pub order_tz : String
  pub anchor_local_date : String
  pub exchange_time : String
  pub holidays : List HolidayRule
  pub effective_from : String
  pub effective_to : Option String
  pub side_a_guardian_id : Option String
  pub side_b_guardian_id : Option String

pub data Source : Type 0 where
  pattern holiday : Source

-- What `sideOn` returns.
pub record DaySide : Type 0 where
  pub side : Side
  pub source : Source
  pub holiday_name : Option String

pub record Block : Type 0 where
  pub side : Side
  pub start_local_date : String
  pub end_local_date : String
  pub source : Source
  pub holiday_name : Option String

-- `n` days of a side before the others.
abbrev pub stretch : ℕ → Side → List Side → List Side
stretch zero s rest = rest
stretch (suc n) s rest = s ∷ stretch n s rest

abbrev pub cycle : Pattern → List Side
cycle two_two_three = stretch 2 side_a (
    stretch 2 side_b (stretch 3 side_a (stretch 2 side_b (stretch 2 side_a (stretch 3 side_b [])))))
cycle two_two_five_five =
    stretch 2 side_a (stretch 2 side_b (stretch 5 side_a (stretch 5 side_b [])))
cycle alternating_weeks = stretch 7 side_a (stretch 7 side_b [])
cycle week_on_week_off = stretch 7 side_a (stretch 7 side_b [])

-- `((diff % 14) + 14) % 14` for `diff = d - a`, whose remainder keeps the sign of `diff`.
unfoldable pub day_index : ℕ → ℕ → ℕ
day_index a d = if leb a d then ((d - a) % 14 + 14) % 14 else (14 - (a - d) % 14) % 14

abbrev pub other : Side → Side
other side_a = side_b
other side_b = side_a

abbrev pub is_even : ℕ → Bool
is_even n = n % 2 == 0

abbrev pub le_text : String → String → Bool
le_text x y = not (str_lt y x)

-- A window over the days of a year that may wrap the new year.
abbrev pub in_window : HolidayRule → String → Bool
in_window h md =
    if le_text h.start_month_day h.end_month_day
    then le_text h.start_month_day md && le_text md h.end_month_day
    else le_text h.start_month_day md || le_text md h.end_month_day

abbrev pub rule_side : HolidayRule → ℕ → Side
rule_side r year = if is_even year then r.even_year_side else other r.even_year_side

module _ (l : Luxon) where
  -- `none` for an index out of the cycle.
  unfoldable pub pattern_side_on : Order → String → Option Side
  unfolding day_index
  pattern_side_on o local_date =
      get_elem? (cycle o.pattern) (day_index (l.day_of o.anchor_local_date) (l.day_of local_date))

-- The default of `side_on` below is for an index out of the cycle, which `dayIndex` does not give.
module _ (l : Luxon) (locale_before : String → String → Bool) where
  -- `y.priority - x.priority || y.startMonthDay.localeCompare(x.startMonthDay)` is negative.
  abbrev pub outranks : HolidayRule → HolidayRule → Bool
  outranks x y =
      ltb y.priority x.priority
      || ((x.priority == y.priority) && locale_before y.start_month_day x.start_month_day)

  abbrev pub covers : String → HolidayRule → Bool
  covers local_date h = in_window h (l.month_day (l.day_of local_date))

  unfoldable pub holiday_on : Order → String → Option (HolidayRule × Side)
  holiday_on o local_date = elim (first_sorted outranks (filterb (covers local_date) o.holidays)) [
    | none ↦ none
    | some rule ↦ some (rule, rule_side rule (l.year (l.day_of local_date)))
  ]

  abbrev pub by_rule : HolidayRule × Side → DaySide
  by_rule (rule, s) = record { side = s; source = holiday; holiday_name = some rule.name }

  abbrev pub by_pattern : Side → DaySide
  by_pattern s = record { side = s; source = pattern; holiday_name = none }

  unfoldable pub side_on : Order → String → DaySide
  unfolding holiday_on pattern_side_on
  side_on o local_date = elim (holiday_on o local_date) [
    | some h ↦ by_rule h
    | none ↦ by_pattern (or_else (pattern_side_on l o local_date) side_a)
  ]
