-- ===== src/Storage/Digest.antt =====
-- retention.ts: what a digest offers to keep. A clock that is null or an empty text is `none`; the
-- parameter `parse` is `Date.parse`, none for NaN, which no comparison accepts.
use olive_branch.Prelude.{
  ℕ, ◌+◌, ◌-◌, ◌*◌, ◌/◌, String, Bool, not, ◌&&◌, Option, none, some, List, [], ◌∷◌, ltb, leb,
  if◌then◌else◌, filterb, any, sort, str_eq,
}

abbrev pub digest_lead_days : ℕ
digest_lead_days = 14

abbrev pub day_ms : ℕ
day_ms = 86400000

pub record Artifact : Type 0 where
  pub id : String
  pub kind : String
  pub caption : Option String
  pub captured_at : String
  pub preserved : Bool
  pub expires_at : Option String

pub record Expiring : Type 0 where
  pub artifact_id : String
  pub kind : String
  pub caption : Option String
  pub captured_at : String
  pub expires_at : String
  pub days_left : ℕ

pub record KindCount : Type 0 where
  pub kind : String
  pub number : ℕ

-- The headline, a text for display, is left out.
pub record Digest : Type 0 where
  pub items : List Expiring
  pub by_kind : List KindCount

-- `Math.ceil((t - now) / 86_400_000)`, and 0 where that is not positive.
abbrev pub days_until : ℕ → ℕ → ℕ
days_until now t = (t - now + (day_ms - 1)) / day_ms

abbrev pub horizon : ℕ → ℕ → ℕ
horizon now lead_days = now + lead_days * day_ms

abbrev pub item : Artifact → String → ℕ → ℕ → Expiring
item a text now t = record {
  artifact_id = a.id;
  kind = a.kind;
  caption = a.caption;
  captured_at = a.captured_at;
  expires_at = text;
  days_left = days_until now t;
}

abbrev pub sooner : Expiring → Expiring → Bool
sooner x y = ltb x.days_left y.days_left

abbrev pub added : Option Expiring → List Expiring → List Expiring
added none rest = rest
added (some e) rest = e ∷ rest

abbrev pub bump : String → List KindCount → List KindCount
bump kind [] = record { kind = kind; number = 1 } ∷ []
bump kind (c ∷ cs) =
    let rest = bump kind cs in
    if str_eq c.kind kind then record { kind = kind; number = c.number + 1 } ∷ cs else c ∷ rest

abbrev pub count_kinds : List KindCount → List Expiring → List KindCount
count_kinds counts [] = counts
count_kinds counts (e ∷ es) = count_kinds (bump e.kind counts) es

abbrev pub more_frequent : KindCount → KindCount → Bool
more_frequent a b = ltb b.number a.number

module _ (parse : String → Option ℕ) where
  abbrev pub in_window : Artifact → String → ℕ → ℕ → Option ℕ → Option Expiring
  in_window a text now lead_days none = none
  in_window a text now lead_days (some t) =
      if ltb 0 (days_until now t) && leb t (horizon now lead_days)
      then some (item a text now t)
      else none

  abbrev pub with_clock : Artifact → ℕ → ℕ → Option String → Option Expiring
  with_clock a now lead_days none = none
  with_clock a now lead_days (some text) = in_window a text now lead_days (parse text)

  -- The filters and the map of `expiringSoon`, on one artifact.
  abbrev pub due : ℕ → ℕ → Artifact → Option Expiring
  due now lead_days a = if a.preserved then none else with_clock a now lead_days a.expires_at

  unfoldable pub all_due : ℕ → ℕ → List Artifact → List Expiring
  all_due now lead_days [] = []
  all_due now lead_days (a ∷ rest) = added (due now lead_days a) (all_due now lead_days rest)

  unfoldable pub expiring_soon : List Artifact → ℕ → ℕ → Digest
  unfolding all_due
  expiring_soon artifacts now lead_days = record {
    items = sort sooner (all_due now lead_days artifacts);
    by_kind = sort more_frequent (count_kinds [] (sort sooner (all_due now lead_days artifacts)));
  }

-- The ids that `keepForever` reports as preserved.
abbrev pub keep_forever : List String → List Artifact → List Artifact
keep_forever ids everything =
    filterb (λ (a : Artifact). any (λ i. str_eq i a.id) ids && not a.preserved) everything
