-- ===== src/Messaging/Capture.antt =====
-- pipeline.ts: a recording becomes an artifact with a clock and an intent to deliver it. The ISO text of
-- an instant is the instant here, none where it is null or not valid.
use olive_branch.Prelude.{
  ℕ, String, Bool, true, false, not, Option, none, some, leb, if◌then◌else◌, find, str_eq,
}
use olive_branch.Time.Luxon.{Luxon}
use olive_branch.Time.Zones.{TzInterval, holds_at}
use olive_branch.Family.Authorize.{Edge, Decision, allow, deny, can, message}
use olive_branch.Prelude.{List}
use olive_branch.Delivery.Materialize.{
  Policy, at_daypart, on_local_date, pending, Intent, ChildCtx, Moment, Schedule, Result, scheduled,
  skipped, Skip, target_in_past, materialize,
}

pub data CaptureDenial : Type 0 where
  not_authorized retention_shorter_than_delivery empty_recording target_date_in_past
        child_sender_mismatch child_cannot_preserve :
      CaptureDenial

-- Ids that are null, undefined or empty are `none`.
pub record CaptureInput : Type 0 where
  pub child_id : String
  pub sender_id : Option String
  pub sender_role : String
  pub sender_child_id : Option String
  pub storage_key : String
  pub duration_ms : ℕ
  pub caption_key : Option String
  pub target_local_date : Option String
  pub daypart : String
  pub preserve : Bool
  pub batch_id : Option String
  pub batch_seq : Option ℕ

pub record ArtifactRow : Type 0 where
  pub child_id : String
  pub author_id : Option String
  pub author_child_id : Option String
  pub storage_key : String
  pub duration_ms : ℕ
  pub caption_key : Option String
  pub captured_at : ℕ
  pub captured_tz : String
  pub preserved : Bool
  pub preserved_by : Option String
  pub preserved_at : Option ℕ
  pub expires_at : Option ℕ

pub record IntentRow : Type 0 where
  pub child_id : String
  pub sender_id : Option String
  pub sender_child_id : Option String
  pub policy : Policy
  pub target_local_date : Option String
  pub target_daypart : String
  pub batch_id : Option String
  pub batch_seq : Option ℕ
  pub expires_at : Option ℕ

pub data CaptureResult : Type 0 where
  captured : ArtifactRow → IntentRow → CaptureResult
  denied : CaptureDenial → CaptureResult

abbrev pub unopened_retention_days : ℕ
unopened_retention_days = 90

abbrev pub opened_retention_days : ℕ
opened_retention_days = 30

abbrev pub artifact_grace_days : ℕ
artifact_grace_days = 7

abbrev pub is_child_sender : CaptureInput → Bool
is_child_sender input = str_eq input.sender_role "child"

abbrev pub names : Option String → String → Bool
names none id = false
names (some x) id = str_eq x id

abbrev pub is_refused : Decision → Bool
is_refused allow = false
is_refused (deny why) = true

-- Why this sender may not send, if so.
unfoldable pub sender_denial : CaptureInput → List Edge → ℕ → Option CaptureDenial
sender_denial input edges now =
    if is_child_sender input
    then (if not (names input.sender_child_id input.child_id)
        then some child_sender_mismatch
        else (if input.preserve then some child_cannot_preserve else none))
    else (if is_refused (can message edges input.child_id now (some input.sender_role) false)
        then some not_authorized
        else none)

abbrev pub policy_for : Option String → Policy
policy_for none = at_daypart
policy_for (some date) = on_local_date

abbrev pub skip_denial : Skip → CaptureDenial
skip_denial target_in_past = target_date_in_past
skip_denial _ = not_authorized

abbrev pub when : {A : Type 0} → Bool → Option A → Option A
when true o = o
when false o = none

-- `a && a <= b`, of instants that may be null or not valid.
abbrev pub no_later : Option ℕ → Option ℕ → Bool
no_later (some a) (some b) = leb a b
no_later _ _ = false

abbrev pub if_permitted : Option CaptureDenial → Option CaptureResult → Option CaptureResult
if_permitted (some why) rest = some (denied why)
if_permitted none rest = rest

-- `proposed < current ? proposed : current`; a clock that cannot be read stays as it is.
abbrev pub sooner_of : ℕ → Option ℕ → Option ℕ
sooner_of proposed none = none
sooner_of proposed (some current) = some (if leb current proposed then current else proposed)

-- `plus_days t zone n` is `plus({ days: n })` of an instant in a zone, and `iso t` is its `toISO()`.
module _ (l : Luxon) (plus_days : ℕ → String → ℕ → ℕ) (iso : ℕ → String) where
  abbrev pub later : Option ℕ → String → ℕ → Option ℕ
  later none zone n = none
  later (some t) zone n = some (plus_days t zone n)

  abbrev pub tz_of : String → Option TzInterval → String
  tz_of home none = home
  tz_of home (some iv) = iv.tz

  -- The first interval that holds the instant, whatever its confidence.
  abbrev pub ctx_zone : ChildCtx → ℕ → String
  ctx_zone ctx at = tz_of ctx.home_tz (find (holds_at l at) ctx.tz_intervals)

  abbrev pub probe : CaptureInput → Moment → Intent
  probe input now = record {
    policy = policy_for input.target_local_date;
    state = pending;
    expires_at = iso (plus_days now.millis now.zone unopened_retention_days);
    target_instant = none;
    target_daypart = some input.daypart;
    target_local_date = input.target_local_date;
    target_event_id = none;
  }

  abbrev pub intent_expiry : Schedule → Option ℕ
  intent_expiry s = later s.scheduled_at s.tz unopened_retention_days

  abbrev pub artifact_expiry : CaptureInput → Schedule → Option ℕ
  artifact_expiry input s =
      when (not input.preserve) (later (intent_expiry s) s.tz artifact_grace_days)

  abbrev pub artifact_of : CaptureInput → ChildCtx → Moment → Schedule → ArtifactRow
  artifact_of input ctx now s = record {
    child_id = input.child_id;
    author_id = when (not (is_child_sender input)) input.sender_id;
    author_child_id = when (is_child_sender input) input.sender_child_id;
    storage_key = input.storage_key;
    duration_ms = input.duration_ms;
    caption_key = input.caption_key;
    captured_at = now.millis;
    captured_tz = ctx_zone ctx now.millis;
    preserved = input.preserve;
    preserved_by = when input.preserve input.sender_id;
    preserved_at = when input.preserve (some now.millis);
    expires_at = artifact_expiry input s;
  }

  abbrev pub intent_of : CaptureInput → Schedule → IntentRow
  intent_of input s = record {
    child_id = input.child_id;
    sender_id = when (not (is_child_sender input)) input.sender_id;
    sender_child_id = when (is_child_sender input) input.sender_child_id;
    policy = policy_for input.target_local_date;
    target_local_date = input.target_local_date;
    target_daypart = input.daypart;
    batch_id = input.batch_id;
    batch_seq = input.batch_seq;
    expires_at = intent_expiry s;
  }

  -- What follows the materialization; `none` for its error.
  abbrev pub filed : CaptureInput → ChildCtx → Moment → Option Result → Option CaptureResult
  filed input ctx now none = none
  filed input ctx now (some (skipped why)) = some (denied (skip_denial why))
  filed input ctx now (some (scheduled s)) = some (
      if no_later (artifact_expiry input s) (intent_expiry s)
      then denied retention_shorter_than_delivery
      else captured (artifact_of input ctx now s) (intent_of input s))

  unfoldable pub capture_message :
      CaptureInput → List Edge → ChildCtx → Moment → Option CaptureResult
  unfolding sender_denial
  capture_message input edges ctx now =
      if leb input.duration_ms 0
      then some (denied empty_recording)
      else if_permitted (sender_denial input edges now.millis)
          (filed input ctx now (materialize l (probe input now) ctx now))

  -- `retentionOnOpen`: a clock that is null, and one that is a text, as luxon reads it.
  unfoldable pub retention_on_open : Option String → Moment → Bool → Option ℕ
  retention_on_open current_expiry opened_at preserved =
      if preserved then none else elim current_expiry [
        | none ↦ some (plus_days opened_at.millis opened_at.zone opened_retention_days)
        | some text ↦
            sooner_of (plus_days opened_at.millis opened_at.zone opened_retention_days)
              (l.millis_of text)
      ]
