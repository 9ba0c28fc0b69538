-- ===== src/Custody/Runs.antt =====
-- The blocks of schedule.ts against the calendar read day by day.
use olive_branch.Prelude.{
  ℕ, zero, suc, ◌-◌, String, ◌≡◌, refl, sym, subst, inl, inr, Bool, true, false, ◌&&◌, Option, none,
  some, List, [], ◌∷◌, ◌++◌, append_assoc, if◌then◌else◌, All, All-snoc, Bool-cases, eq_iff,
}
use olive_branch.Time.Luxon.{Luxon}
use olive_branch.Custody.Schedule.{
  Order, Side, side_a, side_b, Source, pattern, holiday, DaySide, Block, side_on,
}
use olive_branch.Custody.Blocks.{
  side_eq, source_eq, name_eq, label, label_eq, day_block, until_day, is_outside, blocks_from,
  blocks,
}

-- A date and who holds it.
pub record Day : Type 0 where
  pub iso : String
  pub held : DaySide

module _ (l : Luxon) (locale_before : String → String → Bool) where
  abbrev day_at : Order → ℕ → Day
  day_at o d = record { iso = l.iso_date d; held = side_on l locale_before o (l.iso_date d) }

  -- The dates in effect among `left` days from day `d`, each with its own side.
  unfoldable pub days_from : Order → ℕ → ℕ → List Day
  days_from o zero d = []
  days_from o (suc left) d =
      let rest = days_from o left (suc d) in
      if is_outside o (l.iso_date d) then rest else day_at o d ∷ rest

  abbrev pub day_by_day : Order → String → String → List Day
  day_by_day o from_local to_local =
      days_from o (suc (l.day_of to_local) - l.day_of from_local) (l.day_of from_local)

abbrev pub last_iso : Day → List Day → String
last_iso x [] = x.iso
last_iso x (y ∷ ys) = last_iso y ys

-- The block spans these days, which all have its side, source and name.
pub record Spans (b : Block) (head : Day) (rest : List Day) : Type 0 where
  pub starts : b.start_local_date ≡ head.iso
  pub ends : b.end_local_date ≡ last_iso head rest
  pub agrees : All (λ x. label_eq (label b) x.held ≡ true) (head ∷ rest)

-- The next block differs in side, source or name.
abbrev pub Apart : Block → List Block → Type 0
Apart b [] = Unit
Apart b (c ∷ cs) = label_eq (label b) (label c) ≡ false

-- The days fall into runs in order, one for each block, none left out, and neighbours differ.
abbrev pub Splits : List Day → List Block → Type 0
Splits days [] = days ≡ []
Splits days (b ∷ bs) =
    (head : Day) × (rest : List Day) × (after : List Day) × (days ≡ head ∷ (rest ++ after))
    × Spans b head rest
    × Apart b bs
    × Splits after bs

name_eq_refl : (n : Option String) → name_eq n n ≡ true
name_eq_refl none = refl
name_eq_refl (some x) = (eq_iff x x).1 refl

agrees_itself :
    (s : Side) (o : Source) (n : Option String)
    → (side_eq s s && source_eq o o && name_eq n n) ≡ true
agrees_itself side_a pattern n = name_eq_refl n
agrees_itself side_a holiday n = name_eq_refl n
agrees_itself side_b pattern n = name_eq_refl n
agrees_itself side_b holiday n = name_eq_refl n

label_eq_refl : (s : DaySide) → label_eq s s ≡ true
label_eq_refl s = agrees_itself s.side s.source s.holiday_name

last_iso-snoc : (x : Day) (xs : List Day) (y : Day) → last_iso x (xs ++ y ∷ []) ≡ y.iso
last_iso-snoc x [] y = refl
last_iso-snoc x (z ∷ zs) y = last_iso-snoc z zs y

until_day-Spans :
    (b : Block) (head : Day) (rest : List Day) (day : Day)
    → Spans b head rest
    → label_eq (label b) day.held ≡ true
    → Spans (until_day b day.iso) head (rest ++ day ∷ [])
until_day-Spans b head rest day s e = record {
  starts = s.starts;
  ends = sym (last_iso-snoc head rest day);
  agrees = All-snoc _ (head ∷ rest) day s.agrees e;
}

day_block-Spans : (day : Day) → Spans (day_block day.held day.iso) day []
day_block-Spans day = record { starts = refl; ends = refl; agrees = (label_eq_refl day.held, tt) }

-- The first block has this side, source and name.
abbrev Leads : DaySide → List Block → Type 0
Leads s [] = ⊥
Leads s (b ∷ bs) = label b ≡ s

Apart-Leads :
    (b : Block) (s : DaySide) (bs : List Block)
    → Leads s bs
    → label_eq (label b) s ≡ false
    → Apart b bs
Apart-Leads b s [] h e = tt
Apart-Leads b s (c ∷ cs) h e = subst (λ x. label_eq (label b) x ≡ false) (sym h) e

-- The days fall into these blocks, the first of which has this side, source and name.
abbrev Cut : DaySide → List Day → List Block → Type 0
Cut s days bs = Splits days bs × Leads s bs

module _ (l : Luxon) (locale_before : String → String → Bool) (o : Order) where
  abbrev days : ℕ → ℕ → List Day
  days = days_from l locale_before o

  abbrev found : ℕ → ℕ → Option Block → List Block
  found = blocks_from l locale_before o

  abbrev today : ℕ → Day
  today d = day_at l locale_before o d

  days-outside :
      (left d : ℕ) → is_outside o (l.iso_date d) ≡ true → days (suc left) d ≡ days left (suc d)
  unfolding days_from
  days-outside left d e = rw e refl

  days-inside :
      (left d : ℕ)
      → is_outside o (l.iso_date d) ≡ false
      → days (suc left) d ≡ today d ∷ days left (suc d)
  unfolding days_from
  days-inside left d e = rw e refl

  found-outside :
      (left d : ℕ) (cur : Option Block)
      → is_outside o (l.iso_date d) ≡ true
      → found (suc left) d cur ≡ found left (suc d) cur
  unfolding blocks_from
  found-outside left d cur e = rw (e, blocks_from) refl

  found-on :
      (left d : ℕ) (b : Block)
      → is_outside o (l.iso_date d) ≡ false
      → label_eq (label b) (today d).held ≡ true
      → found (suc left) d (some b) ≡ found left (suc d) (some (until_day b (l.iso_date d)))
  unfolding blocks_from
  found-on left d b e same = rw (e, same, blocks_from) refl

  found-new :
      (left d : ℕ) (b : Block)
      → is_outside o (l.iso_date d) ≡ false
      → label_eq (label b) (today d).held ≡ false
      → found (suc left) d (some b)
        ≡ b ∷ found left (suc d) (some (day_block (today d).held (l.iso_date d)))
  unfolding blocks_from
  found-new left d b e differs = rw (e, differs, blocks_from) refl

  found-first :
      (left d : ℕ)
      → is_outside o (l.iso_date d) ≡ false
      → found (suc left) d none
        ≡ found left (suc d) (some (day_block (today d).held (l.iso_date d)))
  unfolding blocks_from
  found-first left d e = rw (e, blocks_from) refl

  found-Cut :
      (left d : ℕ) (b : Block) (head : Day) (rest : List Day)
      → Spans b head rest
      → Cut (label b) (head ∷ (rest ++ days left d)) (found left d (some b))
  found-Cut zero d b head rest s =
      unfold blocks_from days_from in ((head, rest, [], refl, s, tt, refl), refl)
  found-Cut (suc left) d b head rest s = elim (Bool-cases (is_outside o (l.iso_date d))) [
    | inl out ↦
        rw (days-outside left d out, found-outside left d (some b) out)
          (found-Cut left (suc d) b head rest s)
    | inr held ↦ elim (Bool-cases (label_eq (label b) (today d).held)) [
      | inl same ↦
          rw (days-inside left d held, found-on left d b held same)
            (subst
              (λ xs.
                Cut (label b) (head ∷ xs) (found left (suc d) (some (until_day b (l.iso_date d)))))
              (append_assoc rest (today d ∷ []) (days left (suc d)))
              (found-Cut left (suc d) (until_day b (l.iso_date d)) head (rest ++ today d ∷ [])
                (until_day-Spans b head rest (today d) s same)))
      | inr differs ↦
          let (cut, leads) =
            found-Cut left (suc d) (day_block (today d).held (l.iso_date d)) (today d) []
              (day_block-Spans (today d)) in
          rw (days-inside left d held, found-new left d b held differs)
            (
              (
                head,
                rest,
                today d ∷ days left (suc d),
                refl,
                s,
                Apart-Leads b (today d).held
                    (found left (suc d) (some (day_block (today d).held (l.iso_date d)))) leads
                    differs,
                cut,
              ),
              refl,
            )
    ]
  ]

  found-Splits : (left d : ℕ) → Splits (days left d) (found left d none)
  found-Splits zero d = unfold blocks_from days_from in refl
  found-Splits (suc left) d = elim (Bool-cases (is_outside o (l.iso_date d))) [
    | inl out ↦
        rw (days-outside left d out, found-outside left d none out) (found-Splits left (suc d))
    | inr held ↦
        rw (days-inside left d held, found-first left d held)
          (found-Cut left (suc d) (day_block (today d).held (l.iso_date d)) (today d) []
            (day_block-Spans (today d))).0
  ]

  -- The blocks are the calendar read day by day: the dates in effect, in order, fall into runs, one
  -- for each block, which starts and ends with its run and has the side, source and name of each of
  -- its days; and neighbouring blocks differ, so none is split without a reason.
  pub blocks-Splits :
      (from_local to_local : String)
      → Splits
          (day_by_day l locale_before o from_local to_local)
          (blocks l locale_before o from_local to_local)
  unfolding blocks
  blocks-Splits from_local to_local =
      found-Splits (suc (l.day_of to_local) - l.day_of from_local) (l.day_of from_local)
