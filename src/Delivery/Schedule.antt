-- ===== src/Delivery/Schedule.antt =====
-- The window that materialize.ts finds.
use olive_branch.Prelude.{
  ℕ, zero, suc, ◌+◌, ◌≤◌, ◌<◌, String, ◌≡◌, refl, ◌∙◌, ap, subst, inl, inr, true, Option, none,
  some, List, Bool-cases, Best, first_filtered, IsOrder, Mem, arith, ◌==◌, ==_iff,
}
use olive_branch.Time.Luxon.{Luxon}
use olive_branch.Time.Zones.{Resolved}
use olive_branch.Delivery.Materialize.{
  ChildCtx, Moment, sooner, Search, fails, nothing, found, Window, not_before, or_next, starts_of,
  first_start, earliest_on, window_from, next_reachable_window, at, zone_on,
}

sooner-IsOrder : IsOrder sooner
sooner-IsOrder = record {
  asymmetric = λ a b h. ground arith;
  cotransitive = λ a b c h k. ground arith;
}

found-injective : (v w : Window) → found v ≡ found w → v ≡ w
found-injective v w e = cc

module _ (l : Luxon) where
  -- Of the starts of reachable parts on this date that are not before `from`, none is sooner.
  abbrev pub IsEarliest : ChildCtx → ℕ → String → Window → Type 0
  IsEarliest ctx from date w =
      (rs : List Resolved) × (starts_of l ctx date ≡ some rs)
      × ((r : Resolved) × Best sooner (not_before from) rs r
          × (w.start ≡ r.instant)
          × (w.tz ≡ zone_on l ctx date))

  -- No start of a reachable part on this date is at `from` or later.
  abbrev pub HasNone : ChildCtx → ℕ → String → Type 0
  HasNone ctx from date =
      (rs : List Resolved) × (starts_of l ctx date ≡ some rs)
      × ((r : Resolved) → Mem r rs → not_before from r ≡ true → ⊥)

  abbrev StartOf : String → ℕ → Option (List Resolved) → Search → Type 0
  StartOf zone from starts fails = Unit
  StartOf zone from starts nothing =
      (rs : List Resolved) × (starts ≡ some rs)
      × ((r : Resolved) → Mem r rs → not_before from r ≡ true → ⊥)
  StartOf zone from starts (found w) =
      (rs : List Resolved) × (starts ≡ some rs)
      × ((r : Resolved) × Best sooner (not_before from) rs r
          × (w.start ≡ r.instant)
          × (w.tz ≡ zone))

  first_start-StartOf :
      (zone : String) (from : ℕ) (starts : Option (List Resolved))
      → StartOf zone from starts (first_start l zone from starts)
  first_start-StartOf zone from none = tt
  first_start-StartOf zone from (some rs) =
      elim (first_filtered sooner (not_before from) sooner-IsOrder rs) [
        | inl (e, free) ↦ rw e (rs, refl, free)
        | inr (r, best, e) ↦ rw e (rs, refl, (r, best, refl, refl))
      ]

  abbrev pub day_of_round : Moment → ℕ → String
  day_of_round from i = l.date_after from.millis from.zone i

  -- The window that is found is on the first of the days from `i` on that has one.
  abbrev pub FirstWindow : ChildCtx → Moment → ℕ → ℕ → Window → Type 0
  FirstWindow ctx from left i w =
      (k : ℕ) × (i ≤ k)
      × (k < i + left)
      × IsEarliest ctx from.millis (day_of_round from k) w
      × ((j : ℕ) → i ≤ j → j < k → HasNone ctx from.millis (day_of_round from j))

  round :
      (ctx : ChildCtx) (from : Moment) (left i : ℕ) (w : Window) (s : Search)
      → earliest_on l ctx from.millis (day_of_round from i) ≡ s
      → (window_from l ctx from left (suc i) ≡ found w → FirstWindow ctx from left (suc i) w)
      → or_next s (window_from l ctx from left (suc i)) ≡ found w
      → FirstWindow ctx from (suc left) i w
  round ctx from left i w fails here rest e = absurd (cc)
  round ctx from left i w nothing here rest e =
      let (k, low, high, best, before) = rest e in
      let empty =
        subst
          (StartOf (zone_on l ctx (day_of_round from i)) from.millis
            (starts_of l ctx (day_of_round from i)))
          here
          (first_start-StartOf (zone_on l ctx (day_of_round from i)) from.millis
            (starts_of l ctx (day_of_round from i))) in
      (
        k,
        omega arith,
        omega arith,
        best,
        λ j h lt. elim (Bool-cases (i == j)) [
          | inl same ↦
              subst (λ x. HasNone ctx from.millis (day_of_round from x)) ((==_iff i j).0 same) empty
          | inr other ↦ before j (ground arith) lt
        ],
      )
  round ctx from left i w (found v) here rest e =
      let same : v ≡ w = found-injective v w e in
      let best =
        subst
          (StartOf (zone_on l ctx (day_of_round from i)) from.millis
            (starts_of l ctx (day_of_round from i)))
          (here ∙ ap found same)
          (first_start-StartOf (zone_on l ctx (day_of_round from i)) from.millis
            (starts_of l ctx (day_of_round from i))) in
      (i, omega arith, omega arith, best, λ j h lt. absurd (omega arith))

  window_from-FirstWindow :
      (ctx : ChildCtx) (from : Moment) (left i : ℕ) (w : Window)
      → window_from l ctx from left i ≡ found w
      → FirstWindow ctx from left i w
  unfolding window_from
  window_from-FirstWindow ctx from zero i w e = absurd (cc)
  window_from-FirstWindow ctx from (suc left) i w e =
      round ctx from left i w (earliest_on l ctx from.millis (day_of_round from i)) refl
        (window_from-FirstWindow ctx from left (suc i) w) e

  -- The window that is found starts at the time asked for or later, on the first day of the search that
  -- has such a start of a reachable part of the day, and it is the earliest of that day.
  pub next_reachable_window-FirstWindow :
      (ctx : ChildCtx) (from : Moment) (max_days : ℕ) (w : Window)
      → next_reachable_window l ctx from max_days ≡ found w
      → FirstWindow ctx from max_days 0 w
  next_reachable_window-FirstWindow ctx from max_days w e =
      window_from-FirstWindow ctx from max_days 0 w e

  pub earliest-late :
      (ctx : ChildCtx) (from : ℕ) (date : String) (w : Window)
      → IsEarliest ctx from date w
      → from ≤ w.start
  earliest-late ctx from date w (rs, _, (r, best, at, _)) = ground (arith, best.passes)
