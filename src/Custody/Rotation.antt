-- ===== src/Custody/Rotation.antt =====
-- The rotation of schedule.ts: each side has seven of any fourteen days in a row.
use olive_branch.Prelude.{
  ℕ, zero, suc, ◌+◌, ◌%◌, ◌<◌, String, ◌≡◌, refl, ◌∙◌, ap, Bool, true, false, ◌&&◌, Option, none,
  some, List, [], ◌∷◌, get_elem?, count, ◌==◌, if◌then◌else◌, &&-split, ==_iff, Bool-cases, inl,
  inr, arith,
}
use olive_branch.Time.Luxon.{Luxon}
use olive_branch.Custody.Schedule.{
  Pattern, two_two_three, two_two_five_five, alternating_weeks, week_on_week_off, Side, side_a,
  side_b, Order, cycle, day_index, pattern_side_on,
}

day_index-bound : (a d : ℕ) → day_index a d < 14
unfolding day_index
day_index-bound a d = ground arith

day_index-suc : (a d : ℕ) → day_index a (suc d) ≡ (day_index a d + 1) % 14
unfolding day_index
day_index-suc a d = ground arith

abbrev pub same_side : Side → Option Side → Bool
same_side side_a (some side_a) = true
same_side side_b (some side_b) = true
same_side _ _ = false

-- The places in the cycle of `n` days in a row, from place `k`.
abbrev places : ℕ → ℕ → List ℕ
places zero k = []
places (suc n) k = k ∷ places n ((k + 1) % 14)

abbrev fair_at : Side → Pattern → ℕ → Bool
fair_at s p k = count (λ j. same_side s (get_elem? (cycle p) j)) (places 14 k) == 7

abbrev below : (ℕ → Bool) → ℕ → Bool
below test zero = true
below test (suc n) = test n && below test n

below-lt : (test : ℕ → Bool) (n k : ℕ) → below test n ≡ true → k < n → test k ≡ true
below-lt test zero k h lt = absurd (omega arith)
below-lt test (suc n) k h lt = elim (Bool-cases (k == n)) [
  | inl e ↦ ap test ((==_iff k n).0 e) ∙ (&&-split _ _ h).0
  | inr e ↦ below-lt test n k (&&-split _ _ h).1 (ground arith)
]

fair_everywhere : (s : Side) (p : Pattern) → below (fair_at s p) 14 ≡ true
fair_everywhere side_a two_two_three = refl
fair_everywhere side_b two_two_three = refl
fair_everywhere side_a two_two_five_five = refl
fair_everywhere side_b two_two_five_five = refl
fair_everywhere side_a alternating_weeks = refl
fair_everywhere side_b alternating_weeks = refl
fair_everywhere side_a week_on_week_off = refl
fair_everywhere side_b week_on_week_off = refl

fair_place : (s : Side) (p : Pattern) (k : ℕ) → k < 14 → fair_at s p k ≡ true
fair_place s p k h = below-lt (fair_at s p) 14 k (fair_everywhere s p) h

abbrev is_some : Option Side → Bool
is_some none = false
is_some (some s) = true

abbrev has_place : Pattern → ℕ → Bool
has_place p k = is_some (get_elem? (cycle p) k)

place_everywhere : (p : Pattern) → below (has_place p) 14 ≡ true
place_everywhere two_two_three = refl
place_everywhere two_two_five_five = refl
place_everywhere alternating_weeks = refl
place_everywhere week_on_week_off = refl

some_side : (o : Option Side) → is_some o ≡ true → (s : Side) × (o ≡ some s)
some_side none h = absurd (cc)
some_side (some s) h = (s, refl)

-- Every date has a side by the pattern.
pub pattern_side_on-total :
    (l : Luxon) (o : Order) (local_date : String)
    → (s : Side) × (pattern_side_on l o local_date ≡ some s)
unfolding pattern_side_on
pattern_side_on-total l o local_date =
    let k = day_index (l.day_of o.anchor_local_date) (l.day_of local_date) in
    some_side (get_elem? (cycle o.pattern) k) (
      below-lt (has_place o.pattern) 14 k (place_everywhere o.pattern)
        (day_index-bound (l.day_of o.anchor_local_date) (l.day_of local_date)))

module _ (l : Luxon) where
  -- The texts of `n` days in a row.
  abbrev pub dates : ℕ → ℕ → List String
  dates zero d = []
  dates (suc n) d = l.iso_date d ∷ dates n (suc d)

  -- Every day is read back from its text.
  abbrev pub ReadsDates : Type 0
  ReadsDates = (d : ℕ) → l.day_of (l.iso_date d) ≡ d

  count-dates :
      ReadsDates
      → (s : Side) (o : Order) (n d k : ℕ) → day_index (l.day_of o.anchor_local_date) d ≡ k
      → count (λ t. same_side s (pattern_side_on l o t)) (dates n d)
        ≡ count (λ j. same_side s (get_elem? (cycle o.pattern) j)) (places n k)
  count-dates r s o zero d k e = refl
  count-dates r s o (suc n) d k e =
      let here : pattern_side_on l o (l.iso_date d) ≡ get_elem? (cycle o.pattern) k =
        unfold pattern_side_on in
        ap (λ x. get_elem? (cycle o.pattern) (day_index (l.day_of o.anchor_local_date) x)) (r d)
        ∙ ap (get_elem? (cycle o.pattern)) e in
      let rest =
        count-dates r s o n (suc d) ((k + 1) % 14)
          (day_index-suc (l.day_of o.anchor_local_date) d ∙ ap (λ x. (x + 1) % 14) e) in
      rw here (ap (λ x. (if same_side s (get_elem? (cycle o.pattern) k) then 1 else 0) + x) rest)

  -- Whatever the pattern, and before the anchor as after it, each side holds seven of any fourteen
  -- days in a row, holidays aside, where the calendar reads back the dates it writes.
  pub pattern_side_on-IsFair :
      ReadsDates
      → (s : Side) (o : Order) (d : ℕ)
      → count (λ t. same_side s (pattern_side_on l o t)) (dates 14 d) ≡ 7
  pattern_side_on-IsFair r s o d =
      let k = day_index (l.day_of o.anchor_local_date) d in
      count-dates r s o 14 d k refl
      ∙ (==_iff _ 7).0 (fair_place s o.pattern k (day_index-bound (l.day_of o.anchor_local_date) d))
