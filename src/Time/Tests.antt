-- ===== src/Time/Tests.antt =====
-- The theorems on time.ts at a sample calendar.
use olive_branch.Prelude.{◌≡◌, ◌⊎◌, refl, ◌*◌, none, some, List, [], ◌∷◌}
use olive_branch.Time.Sample.{sample, text_of, day_ms}
use olive_branch.Time.Zones.{TzInterval, first, resolve_zone, Resolved, resolve_wall_clock}
use olive_branch.Time.Resolving.{ReadsBack, resolve_wall_clock-ReadsBack}
use olive_branch.Time.Dates.{weekdays, enumerate_local_dates, enumerate_from}

abbrev summer : TzInterval
summer = record {
  tz = "America/Chicago";
  start = some (text_of 3);
  end = some (text_of 5);
  confidence = none;
}

abbrev school : TzInterval
school = record { tz = "America/New_York"; start = none; end = none; confidence = some 50 }

abbrev timeline : List TzInterval
timeline = school ∷ summer ∷ []

in_summer : resolve_zone sample timeline (4 * day_ms) "UTC" ≡ "America/Chicago"
unfolding resolve_zone
in_summer = refl

after_summer : resolve_zone sample timeline (5 * day_ms) "UTC" ≡ "America/New_York"
unfolding resolve_zone
after_summer = refl

resolve_wall_clock-ReadsBack_example :
    ((resolve_wall_clock sample (text_of 3) "02:30" "America/Chicago" first ≡ none)
      × (sample.at_wall_clock (text_of 3) "02:30" "America/Chicago" ≡ none))
    ⊎ ((r : Resolved) × (resolve_wall_clock sample (text_of 3) "02:30" "America/Chicago" first
          ≡ some r)
        × ReadsBack sample "02:30" "America/Chicago" r)
resolve_wall_clock-ReadsBack_example =
    resolve_wall_clock-ReadsBack sample (text_of 3) "02:30" "America/Chicago" first

-- Days 4 to 8, of which the numbers 5 and 6 are a Saturday and a Sunday.
working_days :
    enumerate_local_dates sample (text_of 4) (text_of 8) weekdays
    ≡ text_of 4 ∷ text_of 7 ∷ text_of 8 ∷ []
unfolding enumerate_local_dates enumerate_from
working_days = refl
