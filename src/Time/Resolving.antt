-- ===== src/Time/Resolving.antt =====
-- What time.ts's resolutions promise.
use olive_branch.Prelude.{
  ℕ, ◌+◌, String, ◌≡◌, ◌≢◌, refl, ◌∙◌, ap, ◌⊎◌, inl, inr, Bool, true, false, &&-split, none, some,
  List, if◌then◌else◌, Best, first_filtered, IsOrder, Mem, Bool-cases, Option-cases, str_eq, eq_iff,
  arith,
}
use olive_branch.Time.Luxon.{Luxon}
use olive_branch.Time.Zones.{
  Ambiguity, first, last, TzInterval, regular, nonexistent, ambiguous, Resolved, more_confident,
  hour_ms, is_last, holds_at, tz_or, resolve_zone, same_minute, classify, resolve_wall_clock,
}

pub more_confident-IsOrder : IsOrder more_confident
more_confident-IsOrder = record {
  asymmetric = λ a b h. ground arith;
  cotransitive = λ a b c h k. ground arith;
}

module _ (l : Luxon) where
  -- The zone of an instant is that of an interval that holds it and that no other interval holding it
  -- beats in confidence; it is the fallback only where no interval holds the instant.
  pub resolve_zone-IsBest :
      (intervals : List TzInterval) (at : ℕ) (fallback : String)
      → ((resolve_zone l intervals at fallback ≡ fallback)
          × ((iv : TzInterval) → Mem iv intervals → holds_at l at iv ≡ true → ⊥))
        ⊎ ((iv : TzInterval) × Best more_confident (holds_at l at) intervals iv
            × (resolve_zone l intervals at fallback ≡ iv.tz))
  unfolding resolve_zone
  resolve_zone-IsBest intervals at fallback =
      elim (first_filtered more_confident (holds_at l at) more_confident-IsOrder intervals) [
        | inl (e, free) ↦ inl (ap (tz_or l fallback) e, free)
        | inr (iv, best, e) ↦ inr (iv, best, ap (tz_or l fallback) e)
      ]

  -- The reading of the instant in the zone is the wall clock asked for, or the anomaly says that there
  -- is none.
  abbrev pub ReadsBack : String → String → Resolved → Type 0
  ReadsBack local_time zone r =
      ((r.anomaly ≡ nonexistent) × (l.time_in r.instant zone ≢ local_time))
      ⊎ ((r.anomaly ≢ nonexistent) × (l.time_in r.instant zone ≡ local_time))

  settled :
      (t : ℕ) (local_time zone : String) (on_ambiguous : Ambiguity) (same : Bool)
      → l.time_in t zone ≡ local_time
      → (same ≡ true → l.time_in (t + hour_ms) zone ≡ l.time_in t zone)
      → ReadsBack local_time zone (
          if same
          then record {
            instant = if is_last on_ambiguous then t + hour_ms else t;
            anomaly = ambiguous;
          }
          else record { instant = t; anomaly = regular })
  settled t local_time zone first true e h = inr (λ q. cc, e)
  settled t local_time zone last true e h = inr (λ q. cc, h refl ∙ e)
  settled t local_time zone on_ambiguous false e h = inr (λ q. cc, e)

  classify-ReadsBack :
      (t : ℕ) (local_time zone : String) (on_ambiguous : Ambiguity)
      → ReadsBack local_time zone (classify l t local_time zone on_ambiguous)
  classify-ReadsBack t local_time zone on_ambiguous =
      elim (Bool-cases (str_eq (l.time_in t zone) local_time)) [
        | inl hit ↦
            rw (hit, classify)
              (settled t local_time zone on_ambiguous (same_minute l (t + hour_ms) t zone)
                ((eq_iff _ _).0 hit) (λ q. (eq_iff _ _).0 (&&-split _ _ q).1))
        | inr miss ↦
            rw (miss, classify)
              (inl (refl, λ e. let q = (eq_iff (l.time_in t zone) local_time).1 e in absurd (cc)))
      ]

  -- A resolved instant reads, in the zone, as the wall clock asked for, unless the anomaly
  -- `nonexistent` is reported, and this is reported only where the instant reads otherwise. The one
  -- error is a text that the calendar cannot read.
  pub resolve_wall_clock-ReadsBack :
      (local_date local_time zone : String) (on_ambiguous : Ambiguity)
      → ((resolve_wall_clock l local_date local_time zone on_ambiguous ≡ none)
          × (l.at_wall_clock local_date local_time zone ≡ none))
        ⊎ ((r : Resolved) × (resolve_wall_clock l local_date local_time zone on_ambiguous ≡ some r)
            × ReadsBack local_time zone r)
  unfolding resolve_wall_clock
  resolve_wall_clock-ReadsBack local_date local_time zone on_ambiguous =
      elim (Option-cases (l.at_wall_clock local_date local_time zone)) [
        | inl e ↦ rw (e, resolve_wall_clock) (inl (refl, refl))
        | inr (t, e) ↦
            rw (e, resolve_wall_clock)
              (inr (
                classify l t local_time zone on_ambiguous,
                refl,
                classify-ReadsBack t local_time zone on_ambiguous,
              ))
      ]
