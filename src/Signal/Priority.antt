-- ===== src/Signal/Priority.antt =====
-- signal.ts: which of several pending signals is shown. The comparison `localeCompare` of two
-- instants is a parameter, as the test that the first text comes before the second.
use olive_branch.Prelude.{
  Bool, false, not, ◌&&◌, Option, none, some, List, [], ◌∷◌, String, ltb, length, filterb,
  if◌then◌else◌, first_sorted, non_empty,
}
use olive_branch.Signal.Catalogue.{SignalKind, application}

pub record Pending : Type 0 where
  pub kind : SignalKind
  pub from_user_id : String
  pub sender_is_present : Bool
  pub in_call : Bool
  pub at : String

pub data PriorityReason : Type 0 where
  safety absence_beats_presence in_call first : PriorityReason

pub record Priority : Type 0 where
  pub winner : Pending
  pub reason : PriorityReason

-- `application(p.kind).safetyCritical`; every kind has an entry.
unfoldable pub is_safety_critical : Pending → Bool
is_safety_critical p = elim (application p.kind) [ none ↦ false | some a ↦ a.safety_critical ]

abbrev pub is_absent : Pending → Bool
is_absent p = not p.sender_is_present

abbrev pub is_in_call : Pending → Bool
is_in_call p = p.in_call

abbrev pub won : Option Pending → PriorityReason → Option Priority
won none r = none
won (some p) r = some (record { winner = p; reason = r })

module _ (before : String → String → Bool) where
  abbrev pub comes_before : Pending → Pending → Bool
  comes_before p q = before p.at q.at

  -- The choice by calls within the pool.
  unfoldable pub by_call : List Pending → PriorityReason → Option Priority
  by_call pool reason =
      let calling = filterb is_in_call pool in
      if non_empty calling && ltb (length calling) (length pool)
      then won (first_sorted comes_before calling) in_call
      else won (first_sorted comes_before pool) reason

  -- The choice when no signal is safety critical.
  unfoldable pub by_absence : List Pending → Option Priority
  by_absence pending =
      let absent = filterb is_absent pending in
      by_call (if non_empty absent then absent else pending) (
        if non_empty absent && ltb (length absent) (length pending)
        then absence_beats_presence
        else first)

  unfoldable pub prioritise : List Pending → Option Priority
  prioritise pending = elim (filterb is_safety_critical pending) [
    | [] ↦ by_absence pending
    | p ∷ ps ↦ some (record { winner = p; reason = safety })
  ]
