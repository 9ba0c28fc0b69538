-- ===== src/Time/Luxon.antt =====
-- What the packages use of the calendar library luxon. A date at midnight of UTC is the number of its
-- day, counted from a day before all dates in use; an instant is a number of milliseconds since 1970.
use olive_branch.Prelude.{ℕ, String, Option}

pub record Luxon : Type 0 where
  -- `DateTime.fromISO(date, { zone: 'utc' })`
  pub day_of : String → ℕ
  -- Of such a date: `toISODate()`, `toFormat('MM-dd')`, `year` and `weekday`, 1 for Monday.
  pub iso_date : ℕ → String
  pub month_day : ℕ → String
  pub year : ℕ → ℕ
  pub weekday : ℕ → ℕ
  -- `DateTime.fromISO(text, { zone: 'utc' }).toMillis()`, none for NaN.
  pub millis_of : String → Option ℕ
  -- `DateTime.fromISO(`${date}T12:00`, { zone: 'utc' })`
  pub noon_of : String → ℕ
  -- `DateTime.fromISO(`${date}T${time}`, { zone })`, none if it is not valid.
  pub at_wall_clock : String → String → String → Option ℕ
  -- Of an instant in a zone: `toISODate()`, `toFormat('HH:mm')` and `weekday`.
  pub date_in : ℕ → String → String
  pub time_in : ℕ → String → String
  pub weekday_in : ℕ → String → ℕ
  -- `plus({ days: n }).toISODate()` of an instant in a zone.
  pub date_after : ℕ → String → ℕ → String
