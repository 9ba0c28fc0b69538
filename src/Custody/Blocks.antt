-- ===== src/Custody/Blocks.antt =====
-- schedule.ts: the blocks of a range of dates, the exchanges between them and the sleeps until the
-- side changes.
use olive_branch.Prelude.{
  ℕ, zero, suc, ◌+◌, ◌-◌, String, Bool, true, false, not, ◌&&◌, ◌||◌, Option, none, some, List, [],
  ◌∷◌, if◌then◌else◌, str_lt, str_eq,
}
use olive_branch.Time.Luxon.{Luxon}
use olive_branch.Time.Zones.{TzInterval, Resolved, first, hour_ms, resolve_zone, resolve_wall_clock}
use olive_branch.Custody.Schedule.{
  Order, Side, side_a, side_b, Source, pattern, holiday, DaySide, Block, side_on,
}

abbrev pub side_eq : Side → Side → Bool
side_eq side_a side_a = true
side_eq side_b side_b = true
side_eq _ _ = false

abbrev pub source_eq : Source → Source → Bool
source_eq pattern pattern = true
source_eq holiday holiday = true
source_eq _ _ = false

abbrev pub name_eq : Option String → Option String → Bool
name_eq none none = true
name_eq (some x) (some y) = str_eq x y
name_eq _ _ = false

abbrev pub label : Block → DaySide
label b = record { side = b.side; source = b.source; holiday_name = b.holiday_name }

abbrev pub label_eq : DaySide → DaySide → Bool
label_eq x y =
    side_eq x.side y.side && source_eq x.source y.source && name_eq x.holiday_name y.holiday_name

abbrev pub day_block : DaySide → String → Block
day_block s iso = record {
  side = s.side;
  start_local_date = iso;
  end_local_date = iso;
  source = s.source;
  holiday_name = s.holiday_name;
}

abbrev pub until_day : Block → String → Block
until_day b iso = record {
  side = b.side;
  start_local_date = b.start_local_date;
  end_local_date = iso;
  source = b.source;
  holiday_name = b.holiday_name;
}

-- `order.effectiveTo && iso > order.effectiveTo`, of a text that is null or not empty.
abbrev pub past_end : Option String → String → Bool
past_end none iso = false
past_end (some e) iso = str_lt e iso

abbrev pub is_outside : Order → String → Bool
is_outside o iso = str_lt iso o.effective_from || past_end o.effective_to iso

abbrev pub goes_on : Option Block → DaySide → Bool
goes_on none s = false
goes_on (some b) s = label_eq (label b) s

-- `if (cur) out.push(cur)`
abbrev pub pushed : Option Block → List Block → List Block
pushed none rest = rest
pushed (some b) rest = b ∷ rest

abbrev pub extended : Option Block → DaySide → String → Block
extended none s iso = day_block s iso
extended (some b) s iso = until_day b iso

module _ (l : Luxon) (locale_before : String → String → Bool) where
  -- The loop of `blocks` from day `d`, for as many days as are left up to the last one. The blocks
  -- that are pushed come first.
  unfoldable pub blocks_from : Order → ℕ → ℕ → Option Block → List Block
  blocks_from o zero d cur = pushed cur []
  blocks_from o (suc left) d cur = elim (is_outside o (l.iso_date d)) [
    | true ↦ blocks_from o left (suc d) cur
    | false ↦ elim (goes_on cur (side_on l locale_before o (l.iso_date d))) [
      | true ↦
          blocks_from o left (suc d)
            (some (extended cur (side_on l locale_before o (l.iso_date d)) (l.iso_date d)))
      | false ↦ pushed cur (
          blocks_from o left (suc d)
            (some (day_block (side_on l locale_before o (l.iso_date d)) (l.iso_date d))))
    ]
  ]

  unfoldable pub blocks : Order → String → String → List Block
  unfolding blocks_from
  blocks o from_local to_local =
      blocks_from o (suc (l.day_of to_local) - l.day_of from_local) (l.day_of from_local) none

pub record Exchange : Type 0 where
  pub local_date : String
  pub from_side : Side
  pub to_side : Side
  pub order_time_label : String
  pub instant : ℕ
  pub zone_flips : Bool

-- `format t zone` is `toFormat("h:mm a ZZZZ")` of the instant in the zone.
module _ (l : Luxon) (format : ℕ → String → String) (tz : List TzInterval) (home_tz : String) where
  abbrev pub exchange_at : Order → Block → Block → Resolved → Exchange
  exchange_at o prev next r = record {
    local_date = next.start_local_date;
    from_side = prev.side;
    to_side = next.side;
    order_time_label = format r.instant o.order_tz;
    instant = r.instant;
    zone_flips = not (
        str_eq (resolve_zone l tz (r.instant - hour_ms) home_tz)
          (resolve_zone l tz (r.instant + hour_ms) home_tz));
  }

  -- The exchanges between the blocks after the first; `none` for the error of an unreadable time.
  unfoldable pub exchanges_after : Order → Block → List Block → Option (List Exchange)
  exchanges_after o prev [] = some []
  exchanges_after o prev (next ∷ rest) =
      elim (resolve_wall_clock l next.start_local_date o.exchange_time o.order_tz first) [
        | none ↦ none
        | some r ↦ elim (exchanges_after o next rest) [
          | none ↦ none
          | some es ↦ some (exchange_at o prev next r ∷ es)
        ]
      ]

  abbrev pub exchanges_of : Order → List Block → Option (List Exchange)
  exchanges_of o [] = some []
  exchanges_of o (b ∷ bs) = exchanges_after o b bs

  unfoldable pub exchanges :
      (String → String → Bool) → Order → String → String → Option (List Exchange)
  unfolding exchanges_after blocks
  exchanges locale_before o from_local to_local =
      exchanges_of o (blocks l locale_before o from_local to_local)

pub record SideChange : Type 0 where
  pub sleeps : ℕ
  pub next_side : Side
  pub on_local_date : String

module _ (l : Luxon) (locale_before : String → String → Bool) where
  -- The loop of `sleepsUntilSideChange` before its round `i`, whose day is `d`.
  unfoldable pub change_from : Order → Side → ℕ → ℕ → ℕ → Option SideChange
  change_from o today zero i d = none
  change_from o today (suc left) i d =
      let rest = change_from o today left (suc i) (suc d) in
      if side_eq (side_on l locale_before o (l.iso_date d)).side today
      then rest
      else some (record {
        sleeps = i;
        next_side = (side_on l locale_before o (l.iso_date d)).side;
        on_local_date = l.iso_date d;
      })

  unfoldable pub sleeps_until_side_change : Order → String → ℕ → Option SideChange
  unfolding change_from
  sleeps_until_side_change o now_local_date max_lookahead =
      change_from o (side_on l locale_before o now_local_date).side max_lookahead 1
        (suc (l.day_of now_local_date))
