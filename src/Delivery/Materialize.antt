-- ===== src/Delivery/Materialize.antt =====
-- materialize.ts: the instant of a delivery. An instant that luxon cannot read is `none`; no comparison
-- with it holds.
use olive_branch.Prelude.{
  ℕ, zero, suc, ◌-◌, ◌*◌, ◌%◌, String, Bool, true, false, ◌&&◌, Option, none, some, List, [], ◌∷◌,
  ltb, leb, ◌==◌, if◌then◌else◌, filterb, any, find, first_sorted, or_else, str_eq,
}
use olive_branch.Time.Luxon.{Luxon}
use olive_branch.Time.Zones.{
  TzInterval, first, Anomaly, regular, Resolved, resolve_zone, resolve_wall_clock,
}

pub data Policy : Type 0 where
  immediate at_instant at_daypart on_local_date when_reachable on_event : Policy

pub data State : Type 0 where
  pending ready delivered opened expired revoked : State

pub record DayPart : Type 0 where
  pub kind : String
  pub starts_local : String
  pub ends_local : String
  pub days_of_week : List ℕ
  pub reachable : Bool

pub record Intent : Type 0 where
  pub policy : Policy
  pub state : State
  pub expires_at : String
  pub target_instant : Option String
  pub target_daypart : Option String
  pub target_local_date : Option String
  pub target_event_id : Option String

pub record ChildCtx : Type 0 where
  pub home_tz : String
  pub tz_intervals : List TzInterval
  pub day_parts : List DayPart
  pub event_instants : String → Option String

-- A `DateTime`: its instant and its zone.
pub record Moment : Type 0 where
  pub millis : ℕ
  pub zone : String

pub data Skip : Type 0 where
  daypart_undefined no_reachable_window target_in_past already_expired unresolvable_event
        terminal_state :
      Skip

pub record Schedule : Type 0 where
  pub scheduled_at : Option ℕ
  pub tz : String
  pub anomaly : Anomaly
  pub rolled : Bool

pub data Result : Type 0 where
  scheduled : Schedule → Result
  skipped : Skip → Result

abbrev pub past_grace_minutes : ℕ
past_grace_minutes = 120

abbrev pub grace_floor : ℕ → ℕ
grace_floor now = now - past_grace_minutes * 60000

abbrev pub is_terminal : State → Bool
is_terminal pending = false
is_terminal ready = false
is_terminal _ = true

-- `o < t` and `o <= t`
abbrev pub is_before : Option ℕ → ℕ → Bool
is_before none t = false
is_before (some m) t = ltb m t

abbrev pub is_by : Option ℕ → ℕ → Bool
is_by none t = false
is_by (some m) t = leb m t

abbrev pub kind_is : Option String → String → Bool
kind_is none kind = false
kind_is (some k) kind = str_eq kind k

abbrev pub on_day : DayPart → ℕ → Bool
on_day p dow = any (λ d. d == dow) p.days_of_week

abbrev pub sooner : Resolved → Resolved → Bool
sooner a b = ltb a.instant b.instant

-- What `nextReachableWindow` returns.
pub record Window : Type 0 where
  pub start : ℕ
  pub tz : String
  pub anomaly : Anomaly

-- An error is `fails`.
pub data Search : Type 0 where
  fails : Search
  nothing : Search
  found : Window → Search

abbrev pub window_of : String → Option Resolved → Search
window_of zone none = nothing
window_of zone (some r) = found (record { start = r.instant; tz = zone; anomaly = r.anomaly })

abbrev pub not_before : ℕ → Resolved → Bool
not_before from r = leb from r.instant

-- The next round is wanted where this one has nothing.
abbrev pub or_next : Search → Search → Search
or_next fails rest = fails
or_next nothing rest = rest
or_next (found w) rest = found w

module _ (l : Luxon) where
  -- `DateTime.fromISO` of a text that may be undefined.
  abbrev pub read : Option String → Option ℕ
  read none = none
  read (some s) = l.millis_of s

  abbrev pub day_part_for : ChildCtx → Option String → String → Option DayPart
  day_part_for ctx kind local_date =
      find (λ (p : DayPart). kind_is kind p.kind && on_day p (l.weekday (l.day_of local_date) % 7))
        ctx.day_parts

  -- The zone at noon of a date.
  abbrev pub zone_on : ChildCtx → String → String
  zone_on ctx date = resolve_zone l ctx.tz_intervals (l.noon_of date) ctx.home_tz

  -- The resolved starts of these parts; `none` for an error of one of them.
  unfoldable pub starts_on : String → String → List DayPart → Option (List Resolved)
  starts_on date zone [] = some []
  starts_on date zone (p ∷ ps) = elim (resolve_wall_clock l date p.starts_local zone first) [
    | none ↦ none
    | some r ↦ elim (starts_on date zone ps) [ none ↦ none | some rs ↦ some (r ∷ rs) ]
  ]

  abbrev pub reachable_parts : ChildCtx → String → List DayPart
  reachable_parts ctx date =
      filterb (λ (p : DayPart). p.reachable && on_day p (l.weekday (l.day_of date) % 7))
        ctx.day_parts

  -- The first of these starts that is not before `from`.
  abbrev pub first_start : String → ℕ → Option (List Resolved) → Search
  first_start zone from none = fails
  first_start zone from (some rs) =
      window_of zone (first_sorted sooner (filterb (not_before from) rs))

  abbrev pub starts_of : ChildCtx → String → Option (List Resolved)
  starts_of ctx date = starts_on date (zone_on ctx date) (reachable_parts ctx date)

  abbrev pub earliest_on : ChildCtx → ℕ → String → Search
  earliest_on ctx from date = first_start (zone_on ctx date) from (starts_of ctx date)

  -- The rounds of the search from day `i` on.
  unfoldable pub window_from : ChildCtx → Moment → ℕ → ℕ → Search
  unfolding starts_on
  window_from ctx from zero i = nothing
  window_from ctx from (suc left) i =
      or_next (earliest_on ctx from.millis (l.date_after from.millis from.zone i))
        (window_from ctx from left (suc i))

  abbrev pub next_reachable_window : ChildCtx → Moment → ℕ → Search
  next_reachable_window ctx from max_days = window_from ctx from max_days 0

  abbrev pub at : Option ℕ → String → Result
  at t tz = scheduled (record { scheduled_at = t; tz = tz; anomaly = regular; rolled = false })

  abbrev pub at_resolved : Resolved → String → Bool → Result
  at_resolved r tz rolled =
      scheduled
        (record { scheduled_at = some r.instant; tz = tz; anomaly = r.anomaly; rolled = rolled })

  -- An instant that is given, unless it is before the grace.
  abbrev pub given : ℕ → Option ℕ → String → Result
  given now t tz = if is_before t (grace_floor now) then skipped target_in_past else at t tz

  -- The start of the part of a day: scheduled within the grace, and else the intent is skipped, or
  -- the next round decides.
  abbrev pub if_due : ℕ → Bool → String → Bool → Option Result → Option Resolved → Option Result
  if_due now explicit zone rolled rest none = none
  if_due now explicit zone rolled rest (some r) =
      if leb (grace_floor now) r.instant
      then some (at_resolved r zone rolled)
      else (if explicit then some (skipped target_in_past) else rest)

  abbrev pub if_part :
      ℕ → Bool → String → String → Bool → Option Result → Option DayPart → Option Result
  if_part now explicit date zone rolled rest none = rest
  if_part now explicit date zone rolled rest (some part) =
      if_due now explicit zone rolled rest (resolve_wall_clock l date part.starts_local zone first)

  -- The rounds of `at_daypart` from day `probe` on.
  unfoldable pub daypart_from : ChildCtx → Option String → Bool → ℕ → ℕ → ℕ → Bool → Option Result
  daypart_from ctx kind explicit now zero probe rolled = some (skipped daypart_undefined)
  daypart_from ctx kind explicit now (suc left) probe rolled =
      if_part now explicit (l.iso_date probe) (zone_on ctx (l.iso_date probe)) rolled
        (daypart_from ctx kind explicit now left (suc probe) true)
        (day_part_for ctx kind (l.iso_date probe))

  abbrev pub is_given : Option String → Bool
  is_given none = false
  is_given (some s) = true

  abbrev pub wall_of : Option DayPart → String
  wall_of none = "20:30"
  wall_of (some p) = p.starts_local

  abbrev pub if_not_past : ℕ → String → Option Resolved → Option Result
  if_not_past now zone none = none
  if_not_past now zone (some r) =
      some (
        if ltb r.instant (grace_floor now)
        then skipped target_in_past
        else at_resolved r zone false)

  abbrev pub on_date : ChildCtx → Option String → ℕ → String → Option Result
  on_date ctx daypart now date = if_not_past now (zone_on ctx date) (
      resolve_wall_clock l date (wall_of (day_part_for ctx (some (or_else daypart "bedtime")) date))
        (zone_on ctx date) first)

  abbrev pub of_search : Search → Option Result
  of_search fails = none
  of_search nothing = some (skipped no_reachable_window)
  of_search (found w) = some (
      scheduled
        (record { scheduled_at = some w.start; tz = w.tz; anomaly = w.anomaly; rolled = false }))

  abbrev pub event_of : ChildCtx → Option String → Option String
  event_of ctx none = none
  event_of ctx (some id) = ctx.event_instants id

  abbrev pub on_event_instant : ℕ → String → Option String → Result
  on_event_instant now tz none = skipped unresolvable_event
  on_event_instant now tz (some iso) = given now (l.millis_of iso) tz

  -- The switch on the policy, `zone` being the zone now. `none` for an error.
  unfoldable pub by_policy : Policy → Intent → ChildCtx → Moment → String → Option Result
  unfolding daypart_from window_from
  by_policy immediate intent ctx now zone = some (at (some now.millis) zone)
  by_policy at_instant intent ctx now zone =
      some (given now.millis (read intent.target_instant) zone)
  by_policy at_daypart intent ctx now zone =
      daypart_from ctx intent.target_daypart (is_given intent.target_local_date) now.millis 14
        (l.day_of (or_else intent.target_local_date (l.date_in now.millis zone))) false
  by_policy on_local_date intent ctx now zone =
      on_date ctx intent.target_daypart now.millis (or_else intent.target_local_date "undefined")
  by_policy when_reachable intent ctx now zone = of_search (next_reachable_window ctx now 14)
  by_policy on_event intent ctx now zone =
      some (on_event_instant now.millis zone (event_of ctx intent.target_event_id))

  unfoldable pub materialize : Intent → ChildCtx → Moment → Option Result
  unfolding by_policy
  materialize intent ctx now =
      if is_terminal intent.state
      then some (skipped terminal_state)
      else (if is_by (l.millis_of intent.expires_at) now.millis
          then some (skipped already_expired)
          else by_policy intent.policy intent ctx now
              (resolve_zone l ctx.tz_intervals now.millis ctx.home_tz))
