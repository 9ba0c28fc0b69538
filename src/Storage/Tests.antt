-- ===== src/Storage/Tests.antt =====
-- The theorem on the digest at three artifacts, with a parser that knows two instants.
use olive_branch.Prelude.{
  ◌≡◌, refl, ℕ, String, false, Option, none, some, List, [], ◌∷◌, str_eq, if◌then◌else◌, ◌↔◌, Mem,
  Sorted,
}
use olive_branch.Storage.Digest.{
  Artifact, Expiring, day_ms, digest_lead_days, item, sooner, expiring_soon, all_due, keep_forever,
}
use olive_branch.Storage.Listing.{IsDue, expiring_soon-IsComplete}

abbrev known : String → Option ℕ
known text =
    if str_eq text "day 3"
    then some 259200000
    else if str_eq text "day 2"
    then some 172800000
    else none

abbrev artifact : String → Option String → Artifact
artifact id expiry = record {
  id = id;
  kind = "clip";
  caption = none;
  captured_at = "day 0";
  preserved = false;
  expires_at = expiry;
}

abbrev shelf : List Artifact
shelf =
    artifact "a" (some "day 3")
    ∷ artifact "b" none
    ∷ artifact "c" (some "day 2")
    ∷ artifact "d" (some "never")
    ∷ []

-- One day after the first: the one that expires sooner is first, the others are not listed.
what_is_listed :
    (expiring_soon known shelf day_ms digest_lead_days).items
    ≡ item (artifact "c" (some "day 2")) "day 2" day_ms 172800000
      ∷ item (artifact "a" (some "day 3")) "day 3" day_ms 259200000
      ∷ []
unfolding expiring_soon all_due
what_is_listed = refl

by_kind_counts :
    (expiring_soon known shelf day_ms digest_lead_days).by_kind
    ≡ record { kind = "clip"; number = 2 } ∷ []
unfolding expiring_soon all_due
by_kind_counts = refl

one_tap : keep_forever ("b" ∷ []) shelf ≡ artifact "b" none ∷ []
one_tap = refl

expiring_soon-IsComplete_example :
    Sorted sooner (expiring_soon known shelf day_ms digest_lead_days).items
    × ((e : Expiring)
        → Mem e (expiring_soon known shelf day_ms digest_lead_days).items
          ↔ ((a : Artifact) × Mem a shelf × IsDue known day_ms digest_lead_days a e))
expiring_soon-IsComplete_example = expiring_soon-IsComplete known shelf day_ms digest_lead_days
