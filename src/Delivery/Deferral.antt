-- ===== src/Delivery/Deferral.antt =====
-- When the gate of gate.ts opens, and that it cannot stay shut.
use olive_branch.Prelude.{
  ℕ, ◌+◌, ◌≤◌, ◌<◌, String, ◌≡◌, refl, sym, ◌∙◌, ap, ◌↔◌, ◌⊎◌, inl, inr, true, false, Option, none,
  some, some-injective, List, [], ◌∷◌, ◌++◌, length, leb, Bool-cases, arith, ◌%◌, str_lt, Mem, All,
  All-map, find, any-Mem, find-FirstOf, find-split, &&-split,
}
use olive_branch.Time.Luxon.{Luxon}
use olive_branch.Time.Zones.{resolve_zone}
use olive_branch.Delivery.Materialize.{
  ChildCtx, DayPart, Moment, Search, fails, nothing, found, next_reachable_window,
}
use olive_branch.Delivery.Gate.{
  Priority, normal, emergency, GateResult, max_defers, allowed, postpone, in_part, is_current,
  current_part, by_part, gate,
}

postpone-refuses :
    (kind : String) (count : ℕ) (s : Search) (r : GateResult)
    → postpone kind count s ≡ some r
    → (r.allow ≡ false) × (r.defer_count ≡ some count)
postpone-refuses kind count fails r e = absurd (cc)
postpone-refuses kind count nothing r e = (
  ap (λ x. x.allow) (sym (some-injective _ _ e)),
  ap (λ x. x.defer_count) (sym (some-injective _ _ e)),
)
postpone-refuses kind count (found w) r e = (
  ap (λ x. x.allow) (sym (some-injective _ _ e)),
  ap (λ x. x.defer_count) (sym (some-injective _ _ e)),
)

-- The hour is in the part: from its start until before its end; or, where the part ends before it starts
-- and so wraps midnight, from its start on, or before its end.
abbrev pub HoldsHour : String → DayPart → Type 0
HoldsHour hhmm p =
    ((str_lt p.ends_local p.starts_local ≡ false)
      × (str_lt hhmm p.starts_local ≡ false)
      × (str_lt hhmm p.ends_local ≡ true))
    ⊎ ((str_lt p.ends_local p.starts_local ≡ true)
        × ((str_lt hhmm p.starts_local ≡ false) ⊎ (str_lt hhmm p.ends_local ≡ true)))

in_part_iff : (hhmm : String) (p : DayPart) → (in_part hhmm p ≡ true) ↔ HoldsHour hhmm p
in_part_iff hhmm p = ground arith

module _ (l : Luxon) (ctx : ChildCtx) where
  -- The child's zone at a moment.
  abbrev pub zone_at : Moment → String
  zone_at now = resolve_zone l ctx.tz_intervals now.millis ctx.home_tz

  -- The part is on: it is one of this weekday's, and it holds the hour, both as the child's zone has
  -- them.
  abbrev pub IsOn : Moment → DayPart → Type 0
  IsOn now p =
      Mem (l.weekday_in now.millis (zone_at now) % 7) p.days_of_week
      × HoldsHour (l.time_in now.millis (zone_at now)) p

  -- A part of the day that is on now and not reachable, and no part before it in the child's list is on.
  pub record IsBlocked (now : Moment) : Type 0 where
    pub part : DayPart
    pub earlier : List DayPart
    pub later : List DayPart
    pub places : ctx.day_parts ≡ earlier ++ part ∷ later
    pub is_on : IsOn now part
    pub none_before : All (λ q. ¬ (IsOn now q)) earlier
    pub unreachable : part.reachable ≡ false

  is_current_iff :
      (now : Moment) (p : DayPart) → (is_current l now.millis (zone_at now) p ≡ true) ↔ IsOn now p
  is_current_iff now p =
      let (listed, listing) = any-Mem (l.weekday_in now.millis (zone_at now) % 7) p.days_of_week in
      let (held, holding) = in_part_iff (l.time_in now.millis (zone_at now)) p in
      (
        λ h. let (day, hour) = &&-split _ _ h in (listed day, held hour),
        λ (day, hour). rw (listing day, holding hour) refl,
      )

  is_current_miss :
      (now : Moment) (p : DayPart)
      → (is_current l now.millis (zone_at now) p ≡ false) ↔ (¬ (IsOn now p))
  is_current_miss now p =
      let (on, current) = is_current_iff now p in
      (
        λ h o. let hit = current o in absurd (cc),
        λ f. elim (Bool-cases (is_current l now.millis (zone_at now) p)) [
          | inl hit ↦ absurd (f (on hit))
          | inr miss ↦ miss
        ],
      )

  -- The same by what the code computes.
  abbrev IsShut : Moment → Type 0
  IsShut now = (p : DayPart) × (current_part l ctx now.millis ≡ some p) × (p.reachable ≡ false)

  IsShut-iff : (now : Moment) → IsShut now ↔ IsBlocked now
  IsShut-iff now =
      let test = is_current l now.millis (zone_at now) in
      (
        λ (p, e, shut).
            let f = find-FirstOf test ctx.day_parts p e in
            record {
              part = p;
              earlier = f.earlier;
              later = f.later;
              places = f.places;
              is_on = (is_current_iff now p).0 f.passes;
              none_before =
                  All-map (λ q. test q ≡ false) (λ q. ¬ (IsOn now q)) f.earlier
                    (λ q miss. (is_current_miss now q).0 miss) f.fail_before;
              unreachable = shut;
            },
        λ b. (
          b.part,
          ap (find test) b.places
              ∙ find-split test b.earlier b.later b.part ((is_current_iff now b.part).1 b.is_on) (
                  All-map (λ q. ¬ (IsOn now q)) (λ q. test q ≡ false) b.earlier
                    (λ q off. (is_current_miss now q).1 off) b.none_before),
          b.unreachable,
        ),
      )

  -- The answer by the current part: it lets the delivery through where there is none or it is
  -- reachable, and else counts a postponement.
  abbrev ByPart : Option DayPart → ℕ → GateResult → Type 0
  ByPart part count r =
      ((r.allow ≡ true) × ((p : DayPart) → part ≡ some p → p.reachable ≡ true))
      ⊎ ((r.allow ≡ false)
          × (r.defer_count ≡ some (count + 1))
          × ((p : DayPart) × (part ≡ some p) × (p.reachable ≡ false)))

  by_part-ByPart :
      (now : Moment) (count : ℕ) (part : Option DayPart) (r : GateResult)
      → by_part l ctx now count part ≡ some r
      → ByPart part count r
  by_part-ByPart now count none r e =
      inl (ap (λ x. x.allow) (sym (some-injective _ _ e)), λ p q. absurd (cc))
  by_part-ByPart now count (some p) r e = elim (Bool-cases p.reachable) [
    | inl free ↦
        let e' : some (allowed none none) ≡ some r = rw free at e in
        inl (
          ap (λ x. x.allow) (sym (some-injective _ _ e')),
          λ q same. ap (λ (x : DayPart). x.reachable) (sym (some-injective _ _ same)) ∙ free,
        )
    | inr shut ↦
        let e' : postpone p.kind (count + 1) (next_reachable_window l ctx now 14) ≡ some r =
          rw shut at e in
        let (refused, counted) = postpone-refuses p.kind (count + 1) _ r e' in
        inr (refused, counted, (p, refl, shut))
  ]

  gate-refuses-IsShut :
      (now : Moment) (priority : Priority) (count : ℕ) (r : GateResult)
      → gate l ctx now priority count ≡ some r
      → (r.allow ≡ false) ↔ ((priority ≡ normal) × (count < 3) × IsShut now)
  unfolding gate
  gate-refuses-IsShut now emergency count r e =
      let free = ap (λ x. x.allow) (some-injective _ _ e) in (λ h. absurd (cc), λ h. absurd (cc))
  gate-refuses-IsShut now normal count r e = elim (Bool-cases (leb max_defers count)) [
    | inl late ↦
        let e' : some (allowed (some "max_defers_exceeded") (some count)) ≡ some r = rw late at e in
        let free = ap (λ x. x.allow) (some-injective _ _ e') in
        (λ h. absurd (cc), λ h. absurd (let lt = h.1 in ground arith))
    | inr early ↦
        let e' : by_part l ctx now count (current_part l ctx now.millis) ≡ some r = rw early at e in
        elim (by_part-ByPart now count (current_part l ctx now.millis) r e') [
          | inl (free, reachable) ↦ (
            λ h. absurd (cc),
            λ h. absurd (let q = reachable h.2.0 h.2.1 in let q' = h.2.2 in cc),
          )
          | inr (shut, counted, blocked) ↦ (λ h. (refl, ground arith, blocked), λ h. shut)
        ]
  ]

  -- Where the gate answers, a delivery is postponed exactly when it is normal, was postponed fewer than three times, and the first
  -- part in the child's list that is on is not reachable: a part is on on the weekdays that it lists, from
  -- its start until before its end, past midnight where it ends before it starts, by the clock of the
  -- zone that the child's intervals resolve to.
  pub gate-refuses_iff :
      (now : Moment) (priority : Priority) (count : ℕ) (r : GateResult)
      → gate l ctx now priority count ≡ some r
      → (r.allow ≡ false) ↔ ((priority ≡ normal) × (count < 3) × IsBlocked now)
  gate-refuses_iff now priority count r e =
      let (to, from) = gate-refuses-IsShut now priority count r e in
      let (blocked, shut) = IsShut-iff now in
      (
        λ h. let (n, early, s) = to h in (n, early, blocked s),
        λ (n, early, b). from (n, early, shut b),
      )

  gate-counts :
      (now : Moment) (count : ℕ) (r : GateResult)
      → gate l ctx now normal count ≡ some r
      → r.allow ≡ false
      → r.defer_count ≡ some (count + 1)
  unfolding gate
  gate-counts now count r e shut = elim (Bool-cases (leb max_defers count)) [
    | inl late ↦
        let e' : some (allowed (some "max_defers_exceeded") (some count)) ≡ some r = rw late at e in
        let free = ap (λ x. x.allow) (some-injective _ _ e') in absurd (cc)
    | inr early ↦
        let e' : by_part l ctx now count (current_part l ctx now.millis) ≡ some r = rw early at e in
        elim (by_part-ByPart now count (current_part l ctx now.millis) r e') [
          | inl (free, reachable) ↦ absurd (cc)
          | inr (refused, counted, blocked) ↦ counted
        ]
  ]

  -- Attempts at these moments are all postponed, each with the count that the one before gave.
  abbrev pub Postponed : ℕ → List Moment → Type 0
  Postponed count [] = Unit
  Postponed count (now ∷ later) =
      ((r : GateResult) × (gate l ctx now normal count ≡ some r)
        × (r.allow ≡ false)
        × ((next : ℕ) × (r.defer_count ≡ some next) × Postponed next later))

  Postponed-bound :
      (count : ℕ) (times : List Moment)
      → count ≤ 3
      → Postponed count times
      → count + length times ≤ 3
  Postponed-bound count [] h p = omega arith
  Postponed-bound count (now ∷ later) h (r, e, shut, (next, counted, rest)) =
      let (_, early, _) = (gate-refuses-IsShut now normal count r e).0 shut in
      let same : next ≡ count + 1 =
        some-injective _ _ (sym counted ∙ gate-counts now count r e shut) in
      let below = Postponed-bound next later (omega arith) rest in omega arith

  late_gate :
      (now : Moment) (priority : Priority) (count : ℕ)
      → 3 ≤ count
      → (r : GateResult) × (gate l ctx now priority count ≡ some r) × (r.allow ≡ true)
  unfolding gate
  late_gate now emergency count h = (allowed none none, refl, refl)
  late_gate now normal count h =
      let late : leb max_defers count ≡ true = ground arith in
      (allowed (some "max_defers_exceeded") (some count), rw late refl, refl)

  -- A delivery that was never postponed is postponed at most three times in a row, whatever the moments
  -- of the attempts; and an attempt after three postponements is answered, and let through.
  pub gate-IsBounded :
      (times : List Moment)
      → Postponed 0 times
      → (length times ≤ 3)
        × ((now : Moment) (priority : Priority) (count : ℕ)
            → 3 ≤ count
            → (r : GateResult) × (gate l ctx now priority count ≡ some r) × (r.allow ≡ true))
  gate-IsBounded times p =
      (let h = Postponed-bound 0 times (omega arith) p in omega arith, late_gate)
