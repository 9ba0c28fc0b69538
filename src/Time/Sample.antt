-- ===== src/Time/Sample.antt =====
-- A calendar for the examples: a date is a text as long as its day number, and the zone is always UTC;
-- the time of an instant is midnight or another time, read as noon.
use Prim.Native.String.{String}
use olive_branch.Prelude.{
  ℕ, zero, suc, ◌+◌, ◌*◌, ◌/◌, ◌%◌, ◌≡◌, refl, ap, some, length, codes, ◌==◌, if◌then◌else◌,
}
use olive_branch.Time.Luxon.{Luxon}

abbrev pub text_of : ℕ → String
text_of zero = ""
text_of (suc n) = String.◌∷◌ "d" (text_of n)

abbrev pub day_of_text : String → ℕ
day_of_text s = length (codes s)

abbrev pub day_ms : ℕ
day_ms = 86400000

abbrev pub sample : Luxon
sample = record {
  day_of = day_of_text;
  iso_date = text_of;
  month_day = text_of;
  year = λ d. 2026;
  weekday = λ d. d % 7 + 1;
  millis_of = λ s. some (day_of_text s * day_ms);
  noon_of = λ s. day_of_text s * day_ms + 43200000;
  at_wall_clock = λ date time zone. some (day_of_text date * day_ms);
  date_in = λ t zone. text_of (t / day_ms);
  time_in = λ t zone. if t % day_ms == 0 then "00:00" else "12:00";
  weekday_in = λ t zone. t / day_ms % 7 + 1;
  date_after = λ t zone n. text_of (t / day_ms + n);
}

pub read_back : (d : ℕ) → day_of_text (text_of d) ≡ d
read_back zero = refl
read_back (suc d) = ap suc (read_back d)
