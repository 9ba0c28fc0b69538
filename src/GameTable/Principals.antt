-- ===== src/GameTable/Principals.antt =====
-- table.ts: who sits at a table, the link between siblings, and the decision `canOpenTable`.
use olive_branch.Prelude.{
  ℕ, String, Bool, false, ◌&&◌, Option, none, some, List, [], if◌then◌else◌, str_eq, str_lt,
}
use olive_branch.Family.Authorize.{Role, role_name, Edge, Deny, Decision, call, can}

pub data TablePrincipal : Type 0 where
  adult : (user_id : String) (role : Role) → TablePrincipal
  child : (child_id : String) → TablePrincipal

-- `a.kind === b.kind && principalKey(a) === principalKey(b)`
unfoldable pub principals_equal : TablePrincipal → TablePrincipal → Bool
principals_equal (adult a r) (adult b s) = str_eq a b
principals_equal (child a) (child b) = str_eq a b
principals_equal _ _ = false

abbrev pub principal_key : TablePrincipal → String
principal_key (adult user_id role) = user_id
principal_key (child child_id) = child_id

pub record SiblingLink : Type 0 where
  pub child_a : String
  pub child_b : String
  pub contact_allowed : Bool

unfoldable pub sibling_link_matches : SiblingLink → String → String → Bool
sibling_link_matches link x y =
    if str_lt x y
    then str_eq link.child_a x && str_eq link.child_b y
    else str_eq link.child_a y && str_eq link.child_b x

pub data TableDenyReason : Type 0 where
  same_child_twice no_sibling_link sibling_contact_not_allowed : TableDenyReason
  not_authorized : (detail : Deny) → TableDenyReason
  adult_adult_unsupported : TableDenyReason

pub data TableDecision : Type 0 where
  allow : TableDecision
  deny : TableDenyReason → TableDecision

abbrev sibling_decision : SiblingLink → Bool → TableDecision
sibling_decision link matches =
    if matches
    then (if link.contact_allowed then allow else deny sibling_contact_not_allowed)
    else deny no_sibling_link

abbrev pub edges_or_none : Option (List Edge) → List Edge
edges_or_none none = []
edges_or_none (some es) = es

-- The answer of `can('call', …)`, turned into one about the table.
abbrev pub from_call : Decision → TableDecision
from_call Decision.allow = allow
from_call (Decision.deny d) = deny (not_authorized d)

unfoldable pub can_open_table :
    TablePrincipal → TablePrincipal → ℕ → Option (List Edge) → Option SiblingLink → TableDecision
unfolding sibling_link_matches
can_open_table (child x) (child y) now edges link =
    if str_eq x y then deny same_child_twice else elim link [
      | none ↦ deny no_sibling_link
      | some l ↦ sibling_decision l (sibling_link_matches l x y)
    ]
can_open_table (adult u r) (adult v s) now edges link = deny adult_adult_unsupported
can_open_table (adult u r) (child y) now edges link =
    from_call (can call (edges_or_none edges) y now (some (role_name r)) false)
can_open_table (child x) (adult v s) now edges link =
    from_call (can call (edges_or_none edges) x now (some (role_name s)) false)
