-- ===== src/Delivery/Timely.antt =====
-- What materialize.ts schedules, and when.
use olive_branch.Prelude.{
  ℕ, zero, suc, ◌≤◌, String, ◌≡◌, refl, subst, inl, inr, Bool, true, false, Option, none, some,
  some-injective, ltb, leb, if◌then◌else◌, Bool-cases, arith,
}
use olive_branch.Time.Luxon.{Luxon}
use olive_branch.Time.Zones.{Resolved, first, resolve_zone, resolve_wall_clock}
use olive_branch.Delivery.Materialize.{
  Policy, immediate, at_instant, at_daypart, on_local_date, when_reachable, on_event, Intent,
  ChildCtx, DayPart, Moment, Schedule, Result, scheduled, skipped, terminal_state, already_expired,
  target_in_past, grace_floor, is_terminal, is_by, Search, fails, nothing, found,
  next_reachable_window, at_resolved, given, read, day_part_for, zone_on, if_due, if_part,
  if_not_past, daypart_from, of_search, on_event_instant, by_policy, materialize,
}
use olive_branch.Delivery.Schedule.{next_reachable_window-FirstWindow, earliest-late}

-- Nothing is scheduled before the grace.
abbrev pub IsTimely : ℕ → Option Result → Type 0
IsTimely now none = Unit
IsTimely now (some (skipped why)) = Unit
IsTimely now (some (scheduled s)) = (t : ℕ) → s.scheduled_at ≡ some t → grace_floor now ≤ t

unless_dated :
    (now : ℕ) (explicit : Bool) (rest : Option Result)
    → IsTimely now rest
    → IsTimely now (if explicit then some (skipped target_in_past) else rest)
unless_dated now true rest h = tt
unless_dated now false rest h = h

module _ (l : Luxon) where
  given-IsTimely : (now : ℕ) (t : Option ℕ) (tz : String) → IsTimely now (some (given l now t tz))
  given-IsTimely now none tz = λ t e. absurd (cc)
  given-IsTimely now (some m) tz = elim (Bool-cases (ltb m (grace_floor now))) [
    | inl early ↦ rw early tt
    | inr late ↦ rw late (λ t e. ground (arith, some-injective _ _ e))
  ]

  resolved-IsTimely :
      (now : ℕ) (r : Resolved) (tz : String) (rolled : Bool)
      → grace_floor now ≤ r.instant
      → IsTimely now (some (at_resolved l r tz rolled))
  resolved-IsTimely now r tz rolled h t e =
      subst (λ x. grace_floor now ≤ x) (some-injective _ _ e) h

  if_due-IsTimely :
      (now : ℕ) (explicit : Bool) (zone : String) (rolled : Bool) (rest : Option Result)
      (r : Option Resolved)
      → IsTimely now rest
      → IsTimely now (if_due l now explicit zone rolled rest r)
  if_due-IsTimely now explicit zone rolled rest none h = tt
  if_due-IsTimely now explicit zone rolled rest (some r) h =
      elim (Bool-cases (leb (grace_floor now) r.instant)) [
        | inl due ↦ rw due (resolved-IsTimely now r zone rolled (ground arith))
        | inr past ↦ rw past (unless_dated now explicit rest h)
      ]

  if_part-IsTimely :
      (now : ℕ) (explicit : Bool) (date zone : String) (rolled : Bool) (rest : Option Result)
      (part : Option DayPart)
      → IsTimely now rest
      → IsTimely now (if_part l now explicit date zone rolled rest part)
  if_part-IsTimely now explicit date zone rolled rest none h = h
  if_part-IsTimely now explicit date zone rolled rest (some part) h =
      if_due-IsTimely now explicit zone rolled rest
        (resolve_wall_clock l date part.starts_local zone first) h

  daypart_from-IsTimely :
      (ctx : ChildCtx) (kind : Option String) (explicit : Bool) (now left probe : ℕ) (rolled : Bool)
      → IsTimely now (daypart_from l ctx kind explicit now left probe rolled)
  unfolding daypart_from
  daypart_from-IsTimely ctx kind explicit now zero probe rolled = tt
  daypart_from-IsTimely ctx kind explicit now (suc left) probe rolled =
      if_part-IsTimely now explicit (l.iso_date probe) (zone_on l ctx (l.iso_date probe)) rolled
        (daypart_from l ctx kind explicit now left (suc probe) true)
        (day_part_for l ctx kind (l.iso_date probe))
        (daypart_from-IsTimely ctx kind explicit now left (suc probe) true)

  if_not_past-IsTimely :
      (now : ℕ) (zone : String) (r : Option Resolved) → IsTimely now (if_not_past l now zone r)
  if_not_past-IsTimely now zone none = tt
  if_not_past-IsTimely now zone (some r) = elim (Bool-cases (ltb r.instant (grace_floor now))) [
    | inl past ↦ rw past tt
    | inr due ↦ rw due (resolved-IsTimely now r zone false (ground arith))
  ]

  search-IsTimely :
      (ctx : ChildCtx) (now : Moment) (s : Search)
      → next_reachable_window l ctx now 14 ≡ s
      → IsTimely now.millis (of_search l s)
  search-IsTimely ctx now fails e = tt
  search-IsTimely ctx now nothing e = tt
  search-IsTimely ctx now (found w) e = λ t h.
      let (k, _, _, best, _) = next_reachable_window-FirstWindow l ctx now 14 w e in
      let late = earliest-late l ctx now.millis _ w best in
      subst (λ x. grace_floor now.millis ≤ x) (some-injective _ _ h) (omega arith)

  event-IsTimely :
      (now : ℕ) (tz : String) (iso : Option String)
      → IsTimely now (some (on_event_instant l now tz iso))
  event-IsTimely now tz none = tt
  event-IsTimely now tz (some iso) = given-IsTimely now (l.millis_of iso) tz

  by_policy-IsTimely :
      (p : Policy) (intent : Intent) (ctx : ChildCtx) (now : Moment) (zone : String)
      → IsTimely now.millis (by_policy l p intent ctx now zone)
  unfolding by_policy
  by_policy-IsTimely immediate intent ctx now zone =
      λ t e. subst (λ x. grace_floor now.millis ≤ x) (some-injective _ _ e) (omega arith)
  by_policy-IsTimely at_instant intent ctx now zone =
      given-IsTimely now.millis (read l intent.target_instant) zone
  by_policy-IsTimely at_daypart intent ctx now zone =
      daypart_from-IsTimely ctx intent.target_daypart _ now.millis 14 _ false
  by_policy-IsTimely on_local_date intent ctx now zone = if_not_past-IsTimely now.millis _ _
  by_policy-IsTimely when_reachable intent ctx now zone = search-IsTimely ctx now _ refl
  by_policy-IsTimely on_event intent ctx now zone = event-IsTimely now.millis zone _

  -- What is scheduled, under any policy, is due no earlier than two hours before now, and belongs to an
  -- intent that is not in a terminal state and whose expiry, where it can be read, is ahead.
  pub materialize-IsTimely :
      (intent : Intent) (ctx : ChildCtx) (now : Moment) (s : Schedule)
      → materialize l intent ctx now ≡ some (scheduled s)
      → ((t : ℕ) → s.scheduled_at ≡ some t → grace_floor now.millis ≤ t)
        × (is_terminal intent.state ≡ false)
        × (is_by (l.millis_of intent.expires_at) now.millis ≡ false)
  unfolding materialize
  materialize-IsTimely intent ctx now s e = elim (Bool-cases (is_terminal intent.state)) [
    | inl over ↦
        let e' : some (skipped terminal_state) ≡ some (scheduled s) = rw over at e in absurd (cc)
    | inr live ↦ elim (Bool-cases (is_by (l.millis_of intent.expires_at) now.millis)) [
      | inl late ↦
          let e' : some (skipped already_expired) ≡ some (scheduled s) = rw (live, late) at e in
          absurd (cc)
      | inr ahead ↦
          let zone = resolve_zone l ctx.tz_intervals now.millis ctx.home_tz in
          let e' : by_policy l intent.policy intent ctx now zone ≡ some (scheduled s) =
            rw (live, ahead) at e in
          (
            subst (IsTimely now.millis) e' (by_policy-IsTimely intent.policy intent ctx now zone),
            live,
            ahead,
          )
    ]
  ]
