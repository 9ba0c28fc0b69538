-- ===== src/Delivery/Gate.antt =====
-- gate.ts: whether a delivery may arrive now. `recipientContext` formats its answer for the sender and
-- is left out.
use olive_branch.Prelude.{
  ℕ, ◌+◌, ◌%◌, String, Bool, true, false, not, ◌&&◌, ◌||◌, Option, none, some, leb, if◌then◌else◌,
  find, str_lt,
}
use olive_branch.Time.Luxon.{Luxon}
use olive_branch.Time.Zones.{resolve_zone}
use olive_branch.Delivery.Materialize.{
  ChildCtx, DayPart, Moment, Search, fails, nothing, found, on_day, next_reachable_window,
}

pub data Priority : Type 0 where
  normal emergency : Priority

pub record GateResult : Type 0 where
  pub allow : Bool
  pub reason : Option String
  pub defer_to : Option ℕ
  pub defer_count : Option ℕ

abbrev pub max_defers : ℕ
max_defers = 3

abbrev pub is_emergency : Priority → Bool
is_emergency normal = false
is_emergency emergency = true

-- A part that may wrap midnight.
abbrev pub in_part : String → DayPart → Bool
in_part hhmm p =
    if not (str_lt p.ends_local p.starts_local)
    then not (str_lt hhmm p.starts_local) && str_lt hhmm p.ends_local
    else not (str_lt hhmm p.starts_local) || str_lt hhmm p.ends_local

abbrev pub allowed : Option String → Option ℕ → GateResult
allowed reason count = record {
  allow = true;
  reason = reason;
  defer_to = none;
  defer_count = count;
}

abbrev pub postponed : String → Option ℕ → ℕ → GateResult
postponed kind to count = record {
  allow = false;
  reason = some kind;
  defer_to = to;
  defer_count = some count;
}

-- `none` for the error of a part whose start cannot be read.
abbrev pub postpone : String → ℕ → Search → Option GateResult
postpone kind count fails = none
postpone kind count nothing = some (postponed kind none count)
postpone kind count (found w) = some (postponed kind (some w.start) count)

module _ (l : Luxon) where
  abbrev pub is_current : ℕ → String → DayPart → Bool
  is_current now zone p = on_day p (l.weekday_in now zone % 7) && in_part (l.time_in now zone) p

  abbrev pub current_part : ChildCtx → ℕ → Option DayPart
  current_part ctx now =
      find (is_current now (resolve_zone l ctx.tz_intervals now ctx.home_tz)) ctx.day_parts

  abbrev pub by_part : ChildCtx → Moment → ℕ → Option DayPart → Option GateResult
  by_part ctx now count none = some (allowed none none)
  by_part ctx now count (some p) =
      if p.reachable
      then some (allowed none none)
      else postpone p.kind (count + 1) (next_reachable_window l ctx now 14)

  unfoldable pub gate : ChildCtx → Moment → Priority → ℕ → Option GateResult
  gate ctx now priority defer_count =
      if is_emergency priority
      then some (allowed none none)
      else (if leb max_defers defer_count
          then some (allowed (some "max_defers_exceeded") (some defer_count))
          else by_part ctx now defer_count (current_part ctx now.millis))
