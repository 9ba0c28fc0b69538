-- ===== src/Messaging/Tests.antt =====
-- A message from a father to a child with a bedtime every day.
use olive_branch.Prelude.{
  ℕ, ◌≡◌, ◌≤◌, ◌<◌, ◌+◌, ◌*◌, ◌/◌, refl, String, true, false, none, some, [], ◌∷◌,
}
use olive_branch.Time.Sample.{sample, text_of, day_ms}
use olive_branch.Time.Zones.{resolve_zone, resolve_wall_clock}
use olive_branch.Family.Stamps.{absent}
use olive_branch.Family.Authorize.{Edge, guardian, can, same_action, evaluate, refusal, includes}
use olive_branch.Delivery.Materialize.{
  ChildCtx, DayPart, Moment, Schedule, materialize, by_policy, daypart_from, grace_floor,
  at_daypart,
}
use olive_branch.Messaging.Capture.{
  CaptureInput, ArtifactRow, IntentRow, captured, sender_denial, capture_message, later,
}
use olive_branch.Messaging.Retention.{MaySend, capture_message-IsSound}

abbrev plus_days : ℕ → String → ℕ → ℕ
plus_days t zone n = t + n * day_ms

abbrev iso : ℕ → String
iso t = text_of (t / day_ms)

abbrev dad : Edge
dad = record {
  child_id = "mia";
  user_id = "dad";
  role = guardian;
  scope = λ a. none;
  observer_only = false;
  restricted = false;
  valid_from = absent;
  valid_to = absent;
  expires_at = absent;
  closed_at = absent;
  ladder_step = none;
}

abbrev bedtime : DayPart
bedtime = record {
  kind = "bedtime";
  starts_local = "00:00";
  ends_local = "01:00";
  days_of_week = 0 ∷ 1 ∷ 2 ∷ 3 ∷ 4 ∷ 5 ∷ 6 ∷ [];
  reachable = true;
}

abbrev mia : ChildCtx
mia = record {
  home_tz = "UTC";
  tz_intervals = [];
  day_parts = bedtime ∷ [];
  event_instants = λ id. none;
}

abbrev now : Moment
now = record { millis = day_ms; zone = "UTC" }

abbrev goodnight : CaptureInput
goodnight = record {
  child_id = "mia";
  sender_id = some "dad";
  sender_role = "guardian";
  sender_child_id = none;
  storage_key = "k";
  duration_ms = 5000;
  caption_key = none;
  target_local_date = none;
  daypart = "bedtime";
  preserve = false;
  batch_id = none;
  batch_seq = none;
}

abbrev artifact : ArtifactRow
artifact = record {
  child_id = "mia";
  author_id = some "dad";
  author_child_id = none;
  storage_key = "k";
  duration_ms = 5000;
  caption_key = none;
  captured_at = day_ms;
  captured_tz = "UTC";
  preserved = false;
  preserved_by = none;
  preserved_at = none;
  expires_at = some (98 * day_ms);
}

abbrev intent : IntentRow
intent = record {
  child_id = "mia";
  sender_id = some "dad";
  sender_child_id = none;
  policy = at_daypart;
  target_local_date = none;
  target_daypart = "bedtime";
  batch_id = none;
  batch_seq = none;
  expires_at = some (91 * day_ms);
}

is_captured :
    capture_message sample plus_days iso goodnight (dad ∷ []) mia now
    ≡ some (captured artifact intent)
unfolding capture_message sender_denial can materialize by_policy daypart_from resolve_wall_clock
    resolve_zone same_action evaluate refusal includes
is_captured = refl

capture_message-IsSound_example :
    (0 < 5000)
    × MaySend goodnight (dad ∷ []) day_ms
    × ((s : Schedule) × ((t : ℕ) → s.scheduled_at ≡ some t → grace_floor day_ms ≤ t)
        × (some (91 * day_ms) ≡ later sample plus_days iso s.scheduled_at s.tz 90))
    × (false ≡ true → some (98 * day_ms) ≡ none)
    × ((x y : ℕ) → some (98 * day_ms) ≡ some x → some (91 * day_ms) ≡ some y → y < x)
capture_message-IsSound_example =
    capture_message-IsSound sample plus_days iso goodnight (dad ∷ []) mia now artifact intent
      is_captured
