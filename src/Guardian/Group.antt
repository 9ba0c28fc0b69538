-- ===== src/Guardian/Group.antt =====
-- pending.ts: one parent, several children, and whose turn it is to have the parent alone.
use olive_branch.Prelude.{
  ℕ, zero, suc, String, Bool, Option, none, some, List, [], ◌∷◌, length, get_elem?, ltb,
  if◌then◌else◌, map, or_else, sort, str_eq,
}

pub record GroupCall : Type 0 where
  pub parent_id : String
  pub child_ids : List String
  pub solo_turn : Option String
  pub solo_seconds_each : ℕ
  pub started_at : String

abbrev pub solo_seconds : ℕ
solo_seconds = 240

abbrev pub max_children_on_a_call : ℕ
max_children_on_a_call = 4

pub data GroupError : Type 0 where
  too_many need_two : GroupError

pub data GroupResult : Type 0 where
  begun : GroupCall → GroupResult
  refused : GroupError → GroupResult

unfoldable pub start_group_call : String → List String → String → GroupResult
start_group_call parent_id child_ids at =
    if ltb (length child_ids) 2
    then refused need_two
    else (if ltb max_children_on_a_call (length child_ids)
        then refused too_many
        else begun (record {
          parent_id = parent_id;
          child_ids = child_ids;
          solo_turn = none;
          solo_seconds_each = solo_seconds;
          started_at = at;
        }))

pub record Child : Type 0 where
  pub id : String
  pub age : Option ℕ

-- `(a.age ?? 99) - (b.age ?? 99) < 0`
abbrev pub younger : Child → Child → Bool
younger a b = ltb (or_else a.age 99) (or_else b.age 99)

abbrev pub child_id : Child → String
child_id c = c.id

unfoldable pub solo_order : List Child → List String
solo_order children = map child_id (sort younger children)

abbrev pub after_skip : ℕ → ℕ
after_skip zero = 0
after_skip (suc n) = suc (suc n)

-- The place after that of an id in the order: `order.indexOf(id) + 1`, 0 for one that is not in it.
abbrev pub place_after : String → List String → ℕ
place_after id [] = 0
place_after id (x ∷ xs) = if str_eq x id then 1 else after_skip (place_after id xs)

-- `i + 1`, where `i` is -1 for no turn.
abbrev pub next_place : Option String → List String → ℕ
next_place none order = 0
next_place (some id) order = place_after id order

unfoldable pub next_solo : GroupCall → List String → GroupCall
next_solo call order = record {
  parent_id = call.parent_id;
  child_ids = call.child_ids;
  solo_turn = get_elem? order (next_place call.solo_turn order);
  solo_seconds_each = call.solo_seconds_each;
  started_at = call.started_at;
}
