-- ===== src/Offline/Outbox.antt =====
-- offline.ts: the outbox and its views. The payload's type is a parameter, and so is the comparison
-- of instants by `localeCompare`, as the test that the first text comes before the second.
use olive_branch.Prelude.{
  ℕ, zero, suc, ◌+◌, ◌*◌, min, Bool, true, false, Option, none, some, List, [], ◌∷◌, ◌++◌, map,
  String, ◌==◌, ltb, leb, length, filterb, if◌then◌else◌, first_sorted, str_eq,
}

pub data OutboxKind : Type 0 where
  show drawing message voice colouring : OutboxKind
  journal list_item story_star ping : OutboxKind

pub record OutboxItem (P : Type 0) : Type 0 where
  pub id : String
  pub kind : OutboxKind
  pub created_at : String
  pub payload : P
  pub attempts : ℕ
  pub last_error : Option String

-- `Omit<OutboxItem, 'attempts' | 'lastError'>`
pub record NewItem (P : Type 0) : Type 0 where
  pub id : String
  pub kind : OutboxKind
  pub created_at : String
  pub payload : P

-- `NOT_QUEUEABLE.includes(kind)`, whose only element is `ping`.
abbrev pub not_queueable : OutboxKind → Bool
not_queueable ping = true
not_queueable _ = false

abbrev pub max_attempts : ℕ
max_attempts = 8

abbrev pub power : ℕ → ℕ → ℕ
power b zero = 1
power b (suc n) = b * power b n

unfoldable pub backoff_ms : ℕ → ℕ
backoff_ms attempts = min (60000 * power 2 attempts) (6 * 60 * 60000)

pub record Enqueued (P : Type 0) : Type 0 where
  pub outbox : List (OutboxItem P)
  pub dropped : Bool

pub record ChildView : Type 0 where
  pub line : String
  pub anything_waiting : Bool

pub record GuardianView (P : Type 0) : Type 0 where
  pub waiting : ℕ
  pub stuck : List (OutboxItem P)
  pub oldest : Option String

module _ {P : Type 0} where
  abbrev pub new_item : NewItem P → OutboxItem P
  new_item i = record {
    id = i.id;
    kind = i.kind;
    created_at = i.created_at;
    payload = i.payload;
    attempts = 0;
    last_error = none;
  }

  unfoldable pub enqueue : List (OutboxItem P) → NewItem P → Enqueued P
  enqueue outbox item =
      if not_queueable item.kind
      then record { outbox = outbox; dropped = true }
      else record { outbox = outbox ++ new_item item ∷ []; dropped = false }

  abbrev pub may_try : OutboxItem P → Bool
  may_try i = ltb i.attempts max_attempts

  abbrev pub is_stuck : OutboxItem P → Bool
  is_stuck i = leb max_attempts i.attempts

  abbrev pub failed : String → String → OutboxItem P → OutboxItem P
  failed id error i =
      if str_eq i.id id then record i { attempts = i.attempts + 1; last_error = some error } else i

  unfoldable pub record_failure : List (OutboxItem P) → String → String → List (OutboxItem P)
  record_failure outbox id error = map (failed id error) outbox

  abbrev pub is_other : String → OutboxItem P → Bool
  is_other id i = if str_eq i.id id then false else true

  unfoldable pub sent : List (OutboxItem P) → String → List (OutboxItem P)
  sent outbox id = filterb (is_other id) outbox

  unfoldable pub offline_child_view : List (OutboxItem P) → ChildView
  offline_child_view outbox = record {
    anything_waiting = ltb 0 (length outbox);
    line =
        if length outbox == 0 then "" else "It will go when you have internet again. It is safe.";
  }

  module _ (before : String → String → Bool) where
    abbrev pub made_before : OutboxItem P → OutboxItem P → Bool
    made_before a b = before a.created_at b.created_at

    unfoldable pub next_to_send : List (OutboxItem P) → Option (OutboxItem P)
    next_to_send outbox = first_sorted made_before (filterb may_try outbox)

    abbrev created_of : Option (OutboxItem P) → Option String
    created_of none = none
    created_of (some i) = some i.created_at

    unfoldable pub offline_guardian_view : List (OutboxItem P) → GuardianView P
    offline_guardian_view outbox = record {
      waiting = length outbox;
      stuck = filterb is_stuck outbox;
      oldest = created_of (first_sorted made_before outbox);
    }
