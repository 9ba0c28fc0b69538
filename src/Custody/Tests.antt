-- ===== src/Custody/Tests.antt =====
-- The theorems on schedule.ts at a sample order: alternating weeks from day 2, with a holiday on days 4
-- and 5.
use olive_branch.Prelude.{
  ◌≡◌, ◌⊎◌, refl, ℕ, ◌+◌, ◌≤◌, ◌<◌, String, Bool, true, none, some, List, [], ◌∷◌, Mem, Best,
  IsOrder, ltb, length, codes, count, arith, str_lt,
}
use olive_branch.Time.Sample.{sample, text_of, read_back}
use olive_branch.Custody.Schedule.{
  Order, HolidayRule, alternating_weeks, side_a, side_b, holiday, pattern, pattern_side_on, side_on,
  holiday_on, day_index,
}
use olive_branch.Custody.Rotation.{same_side, dates, pattern_side_on-IsFair}
use olive_branch.Custody.Blocks.{
  blocks, blocks_from, SideChange, sleeps_until_side_change, change_from,
}
use olive_branch.Custody.Runs.{Splits, day_by_day, blocks-Splits}
use olive_branch.Custody.Waiting.{has_side, FirstChange, sleeps_until_side_change-FirstChange}
use olive_branch.Custody.Presence.{
  FreeCandidate, FreeWindow, is_free, starts_before, free_of, free_guardian_now,
  free_guardian_now-IsBest,
}

abbrev shorter : String → String → Bool
shorter x y = ltb (length (codes x)) (length (codes y))

shorter-IsOrder : IsOrder shorter
shorter-IsOrder = record {
  asymmetric = λ a b h. ground arith;
  cotransitive = λ a b c h k. ground arith;
}

abbrev fair_day : HolidayRule
fair_day = record {
  name = "Fair";
  start_month_day = text_of 4;
  end_month_day = text_of 5;
  even_year_side = side_b;
  priority = 1;
}

abbrev order : Order
order = record {
  pattern = alternating_weeks;
  order_tz = "America/New_York";
  anchor_local_date = text_of 2;
  exchange_time = "18:00";
  holidays = fair_day ∷ [];
  effective_from = text_of 3;
  effective_to = none;
  side_a_guardian_id = none;
  side_b_guardian_id = none;
}

-- The dates before the order takes effect are in no block.
five_blocks :
    blocks sample shorter order (text_of 1) (text_of 10)
    ≡ record {
      side = side_a;
      start_local_date = text_of 3;
      end_local_date = text_of 3;
      source = pattern;
      holiday_name = none;
    }
      ∷ record {
        side = side_b;
        start_local_date = text_of 4;
        end_local_date = text_of 5;
        source = holiday;
        holiday_name = some "Fair";
      }
      ∷ record {
        side = side_a;
        start_local_date = text_of 6;
        end_local_date = text_of 8;
        source = pattern;
        holiday_name = none;
      }
      ∷ record {
        side = side_b;
        start_local_date = text_of 9;
        end_local_date = text_of 10;
        source = pattern;
        holiday_name = none;
      }
      ∷ []
unfolding blocks blocks_from str_lt side_on holiday_on pattern_side_on day_index
five_blocks = refl

pattern_side_on-IsFair_example :
    count (λ t. same_side side_a (pattern_side_on sample order t)) (dates sample 14 0) ≡ 7
pattern_side_on-IsFair_example = pattern_side_on-IsFair sample read_back side_a order 0

blocks-Splits_example :
    Splits
      (day_by_day sample shorter order (text_of 1) (text_of 10))
      (blocks sample shorter order (text_of 1) (text_of 10))
blocks-Splits_example = blocks-Splits sample shorter order (text_of 1) (text_of 10)

one_sleep :
    sleeps_until_side_change sample shorter order (text_of 3) 60
    ≡ some (record { sleeps = 1; next_side = side_b; on_local_date = text_of 4 })
unfolding sleeps_until_side_change change_from str_lt side_on holiday_on pattern_side_on day_index
one_sleep = refl

sleeps_until_side_change-FirstChange_example :
    ((sleeps_until_side_change sample shorter order (text_of 3) 60 ≡ none)
      × ((j : ℕ)
          → 4 ≤ j
          → j < 4 + 60
          → has_side sample shorter order (side_on sample shorter order (text_of 3)).side j ≡ true))
    ⊎ ((c : SideChange) × (sleeps_until_side_change sample shorter order (text_of 3) 60 ≡ some c)
        × FirstChange sample shorter order (side_on sample shorter order (text_of 3)).side 60 1 4 c)
sleeps_until_side_change-FirstChange_example =
    sleeps_until_side_change-FirstChange sample shorter order (text_of 3) 60

abbrev parents : List FreeCandidate
parents = record { user_id = "mum"; name = "Mum" } ∷ []

abbrev evening : FreeWindow
evening = record {
  guardian_id = "mum";
  guardian_name = "Mum";
  weekday = 2;
  start_local = "18:00";
  end_local = "20:00";
}

mum_is_free :
    free_guardian_now shorter parents (evening ∷ []) 2 "19:30" ≡ some (free_of shorter evening)
unfolding free_guardian_now str_lt
mum_is_free = refl

free_guardian_now-IsBest_example :
    ((free_guardian_now shorter parents (evening ∷ []) 2 "19:30" ≡ none)
      × ((w : FreeWindow) → Mem w (evening ∷ []) → is_free parents 2 "19:30" w ≡ true → ⊥))
    ⊎ ((w : FreeWindow) × Best (starts_before shorter) (is_free parents 2 "19:30") (evening ∷ []) w
        × (free_guardian_now shorter parents (evening ∷ []) 2 "19:30" ≡ some (free_of shorter w)))
free_guardian_now-IsBest_example =
    free_guardian_now-IsBest shorter shorter-IsOrder parents (evening ∷ []) 2 "19:30"
