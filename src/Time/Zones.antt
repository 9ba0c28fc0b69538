-- ===== src/Time/Zones.antt =====
-- time.ts: the zone of an instant, and the instant of a wall clock. Luxon adds an hour to an instant
-- as 3,600,000 milliseconds.
use olive_branch.Prelude.{
  ℕ, ◌+◌, String, Bool, true, false, ◌&&◌, Option, none, some, List, ltb, leb, if◌then◌else◌,
  filterb, first_sorted, str_eq, or_else,
}
use olive_branch.Time.Luxon.{Luxon}

pub data Ambiguity : Type 0 where
  first last : Ambiguity

-- A start or an end that is null, or an empty text, is `none`.
pub record TzInterval : Type 0 where
  pub tz : String
  pub start : Option String
  pub end : Option String
  pub confidence : Option ℕ

pub data Anomaly : Type 0 where
  regular nonexistent ambiguous : Anomaly

pub record Resolved : Type 0 where
  pub instant : ℕ
  pub anomaly : Anomaly

-- `(b.confidence ?? 100) - (a.confidence ?? 100) < 0`
abbrev pub more_confident : TzInterval → TzInterval → Bool
more_confident a b = ltb (or_else b.confidence 100) (or_else a.confidence 100)

abbrev pub hour_ms : ℕ
hour_ms = 3600000

abbrev pub is_last : Ambiguity → Bool
is_last first = false
is_last last = true

module _ (l : Luxon) where
  abbrev pub started : Option String → ℕ → Bool
  started none t = true
  started (some s) t = elim (l.millis_of s) [ none ↦ false | some m ↦ leb m t ]

  abbrev pub not_ended : Option String → ℕ → Bool
  not_ended none t = true
  not_ended (some s) t = elim (l.millis_of s) [ none ↦ false | some m ↦ ltb t m ]

  abbrev pub holds_at : ℕ → TzInterval → Bool
  holds_at t iv = started iv.start t && not_ended iv.end t

  abbrev pub tz_or : String → Option TzInterval → String
  tz_or fallback none = fallback
  tz_or fallback (some iv) = iv.tz

  unfoldable pub resolve_zone : List TzInterval → ℕ → String → String
  resolve_zone intervals at fallback =
      tz_or fallback (first_sorted more_confident (filterb (holds_at at) intervals))

  -- `toFormat('yyyy-MM-dd HH:mm')` of two instants is the same text.
  abbrev pub same_minute : ℕ → ℕ → String → Bool
  same_minute a b zone =
      str_eq (l.date_in a zone) (l.date_in b zone) && str_eq (l.time_in a zone) (l.time_in b zone)

  abbrev pub classify : ℕ → String → String → Ambiguity → Resolved
  classify t local_time zone on_ambiguous =
      if str_eq (l.time_in t zone) local_time
      then (if same_minute (t + hour_ms) t zone
          then record {
            instant = if is_last on_ambiguous then t + hour_ms else t;
            anomaly = ambiguous;
          }
          else record { instant = t; anomaly = regular })
      else record { instant = t; anomaly = nonexistent }

  -- `none` for the error of a text that luxon cannot read.
  unfoldable pub resolve_wall_clock : String → String → String → Ambiguity → Option Resolved
  resolve_wall_clock local_date local_time zone on_ambiguous =
      elim (l.at_wall_clock local_date local_time zone) [
        | none ↦ none
        | some t ↦ some (classify t local_time zone on_ambiguous)
      ]
