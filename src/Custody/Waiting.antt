-- ===== src/Custody/Waiting.antt =====
-- The sleeps until the side changes, schedule.ts.
use olive_branch.Prelude.{
  ℕ, zero, suc, ◌+◌, ◌≤◌, ◌<◌, String, ◌≡◌, refl, subst, ◌⊎◌, inl, inr, Bool, true, false, none,
  some, Bool-cases, ◌==◌, ==_iff, arith,
}
use olive_branch.Time.Luxon.{Luxon}
use olive_branch.Custody.Schedule.{Order, Side, side_on}
use olive_branch.Custody.Blocks.{side_eq, SideChange, change_from, sleeps_until_side_change}

module _ (l : Luxon) (locale_before : String → String → Bool) (o : Order) where
  -- Whether the day has the side `today`.
  abbrev pub has_side : Side → ℕ → Bool
  has_side today n = side_eq (side_on l locale_before o (l.iso_date n)).side today

  -- The first day from `d` on, within `left` days, whose side is not `today`, where `i` sleeps lead to
  -- day `d`.
  abbrev pub FirstChange : Side → ℕ → ℕ → ℕ → SideChange → Type 0
  FirstChange today left i d c =
      (n : ℕ) × (d ≤ n)
      × (n < d + left)
      × (c.sleeps + d ≡ n + i)
      × (c.on_local_date ≡ l.iso_date n)
      × (c.next_side ≡ (side_on l locale_before o (l.iso_date n)).side)
      × (has_side today n ≡ false)
      × ((j : ℕ) → d ≤ j → j < n → has_side today j ≡ true)

  extend :
      (today : Side) (d n : ℕ)
      → has_side today d ≡ true
      → ((j : ℕ) → suc d ≤ j → j < n → has_side today j ≡ true)
      → (j : ℕ) → d ≤ j
      → j < n
      → has_side today j ≡ true
  extend today d n here later j low high = elim (Bool-cases (d == j)) [
    | inl e ↦ subst (λ x. has_side today x ≡ true) ((==_iff d j).0 e) here
    | inr e ↦ later j (ground arith) high
  ]

  change_from-FirstChange :
      (today : Side) (left i d : ℕ)
      → ((change_from l locale_before o today left i d ≡ none)
          × ((j : ℕ) → d ≤ j → j < d + left → has_side today j ≡ true))
        ⊎ ((c : SideChange) × (change_from l locale_before o today left i d ≡ some c)
            × FirstChange today left i d c)
  unfolding change_from
  change_from-FirstChange today zero i d = inl (refl, λ j h k. absurd (omega arith))
  change_from-FirstChange today (suc left) i d = elim (Bool-cases (has_side today d)) [
    | inl same ↦ elim (change_from-FirstChange today left (suc i) (suc d)) [
      | inl (e, all_same) ↦
          inl (rw same e, λ j h k. extend today d (suc d + left) same all_same j h (omega arith))
      | inr (c, e, (n, low, high, count, on, next, differs, before)) ↦ inr (
        c,
        rw same e,
        (n, omega arith, omega arith, omega arith, on, next, differs, extend today d n same before),
      )
    ]
    | inr differs ↦ inr (
      record {
        sleeps = i;
        next_side = (side_on l locale_before o (l.iso_date d)).side;
        on_local_date = l.iso_date d;
      },
      rw differs refl,
      (
        d,
        omega arith,
        omega arith,
        omega arith,
        refl,
        refl,
        differs,
        λ j h k. absurd (omega arith),
      ),
    )
  ]

  -- The change that is found is the first: the sleeps are the days from today to the first day, within
  -- the lookahead, whose side is not today's, and every day before it has today's side. Nothing is
  -- found only where every day within the lookahead has today's side.
  pub sleeps_until_side_change-FirstChange :
      (now_local_date : String) (max_lookahead : ℕ)
      → ((sleeps_until_side_change l locale_before o now_local_date max_lookahead ≡ none)
          × ((j : ℕ)
              → suc (l.day_of now_local_date) ≤ j
              → j < suc (l.day_of now_local_date) + max_lookahead
              → has_side (side_on l locale_before o now_local_date).side j ≡ true))
        ⊎ ((c : SideChange) × (sleeps_until_side_change l locale_before o now_local_date
                max_lookahead
              ≡ some c)
            × FirstChange
                (side_on l locale_before o now_local_date).side
                max_lookahead
                1
                (suc (l.day_of now_local_date))
                c)
  unfolding sleeps_until_side_change
  sleeps_until_side_change-FirstChange now_local_date max_lookahead =
      change_from-FirstChange (side_on l locale_before o now_local_date).side max_lookahead 1
        (suc (l.day_of now_local_date))
