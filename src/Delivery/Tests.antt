-- ===== src/Delivery/Tests.antt =====
-- The theorems on the delivery at a sample child, asleep every night, and reachable at midnight on
-- one day of the week.
use olive_branch.Prelude.{
  ◌≡◌, ◌↔◌, refl, ℕ, ◌*◌, ◌≤◌, ◌<◌, true, false, none, some, [], ◌∷◌, str_lt,
}
use olive_branch.Time.Sample.{sample, text_of, day_ms}
use olive_branch.Time.Zones.{resolve_zone, resolve_wall_clock, regular}
use olive_branch.Delivery.Materialize.{
  ChildCtx, DayPart, Moment, Intent, Schedule, Window, found, scheduled, at_daypart, pending,
  grace_floor, is_terminal, is_by, starts_on, window_from, next_reachable_window, daypart_from,
  by_policy, materialize,
}
use olive_branch.Delivery.Gate.{Priority, normal, GateResult, postponed, gate}
use olive_branch.Delivery.Schedule.{FirstWindow, next_reachable_window-FirstWindow}
use olive_branch.Delivery.Deferral.{IsBlocked, gate-refuses_iff, gate-IsBounded}
use olive_branch.Delivery.Timely.{materialize-IsTimely}

abbrev asleep : DayPart
asleep = record {
  kind = "asleep";
  starts_local = "00:00";
  ends_local = "06:30";
  days_of_week = 0 ∷ 1 ∷ 2 ∷ 3 ∷ 4 ∷ 5 ∷ 6 ∷ [];
  reachable = false;
}

abbrev evening : DayPart
evening = record {
  kind = "bedtime";
  starts_local = "00:00";
  ends_local = "01:00";
  days_of_week = 3 ∷ [];
  reachable = true;
}

abbrev child : ChildCtx
child = record {
  home_tz = "UTC";
  tz_intervals = [];
  day_parts = asleep ∷ evening ∷ [];
  event_instants = λ id. none;
}

abbrev now : Moment
now = record { millis = day_ms; zone = "UTC" }

abbrev window : Window
window = record { start = 2 * day_ms; tz = "UTC"; anomaly = regular }

next_window : next_reachable_window sample child now 14 ≡ found window
unfolding window_from starts_on resolve_wall_clock resolve_zone
next_window = refl

next_reachable_window-FirstWindow_example : FirstWindow sample child now 14 0 window
next_reachable_window-FirstWindow_example =
    next_reachable_window-FirstWindow sample child now 14 window next_window

abbrev later : GateResult
later = postponed "asleep" (some (2 * day_ms)) 1

asleep_now : gate sample child now normal 0 ≡ some later
unfolding gate window_from starts_on resolve_wall_clock resolve_zone str_lt
asleep_now = refl

gate-refuses_iff_example :
    (later.allow ≡ false) ↔ ((normal ≡ normal) × (0 < 3) × IsBlocked sample child now)
gate-refuses_iff_example = gate-refuses_iff sample child now normal 0 later asleep_now

gate-IsBounded_example :
    (1 ≤ 3)
    × ((t : Moment) (priority : Priority) (count : ℕ)
        → 3 ≤ count
        → (r : GateResult) × (gate sample child t priority count ≡ some r) × (r.allow ≡ true))
gate-IsBounded_example =
    gate-IsBounded sample child (now ∷ []) (later, asleep_now, refl, (1, refl, tt))

abbrev story : Intent
story = record {
  policy = at_daypart;
  state = pending;
  expires_at = text_of 9;
  target_instant = none;
  target_daypart = some "bedtime";
  target_local_date = none;
  target_event_id = none;
}

abbrev tomorrow : Schedule
tomorrow = record { scheduled_at = some (2 * day_ms); tz = "UTC"; anomaly = regular; rolled = true }

story_rolls : materialize sample story child now ≡ some (scheduled tomorrow)
unfolding materialize by_policy daypart_from resolve_wall_clock resolve_zone
story_rolls = refl

materialize-IsTimely_example :
    ((t : ℕ) → some (2 * day_ms) ≡ some t → grace_floor day_ms ≤ t)
    × (is_terminal pending ≡ false)
    × (is_by (sample.millis_of (text_of 9)) day_ms ≡ false)
materialize-IsTimely_example = materialize-IsTimely sample story child now tomorrow story_rolls
