-- ===== src/Family/Authorize.antt =====
-- packages/family-graph/src/authorize.ts: roles, edges, and the decision `can`.
use olive_branch.Prelude.{
  ℕ, String, Bool, true, false, not, ◌&&◌, ◌||◌, Option, none, some, List, [], ◌∷◌, leb, ◌==◌,
  if◌then◌else◌, str_eq, filterb, any, length,
}
use olive_branch.Family.Stamps.{Stamp, reached, ahead, is_absent}

pub data Role : Type 0 where
  guardian trusted_adult step_parent sitter : Role
  coordinator foster_parent caseworker therapist : Role

-- 'none' and 'open' are `none_step` and `open_step`.
pub data LadderStep : Type 0 where
  none_step supervised monitored time_limited open_step : LadderStep

pub data Action : Type 0 where
  call message : Action
  homework_view homework_annotate : Action
  calendar_view calendar_edit : Action
  list_view list_claim : Action
  medication_view medication_log : Action
  emergency_card_view emergency_card_edit : Action
  archive_view archive_preserve : Action
  export_raw export_certified : Action
  expense_view expense_create expense_resolve : Action
  care_note_view care_note_write : Action
  ladder_advance settings letter journal_read : Action

-- Texts are compared by `===`; these numbers, all different, stand for that test.
abbrev pub ordinal : Action → ℕ
ordinal call = 0
ordinal message = 1
ordinal homework_view = 2
ordinal homework_annotate = 3
ordinal calendar_view = 4
ordinal calendar_edit = 5
ordinal list_view = 6
ordinal list_claim = 7
ordinal medication_view = 8
ordinal medication_log = 9
ordinal emergency_card_view = 10
ordinal emergency_card_edit = 11
ordinal archive_view = 12
ordinal archive_preserve = 13
ordinal export_raw = 14
ordinal export_certified = 15
ordinal expense_view = 16
ordinal expense_create = 17
ordinal expense_resolve = 18
ordinal care_note_view = 19
ordinal care_note_write = 20
ordinal ladder_advance = 21
ordinal settings = 22
ordinal letter = 23
ordinal journal_read = 24

unfoldable pub same_action : Action → Action → Bool
same_action a b = ordinal a == ordinal b

unfoldable pub includes : List Action → Action → Bool
unfolding same_action
includes actions a = any (λ b. same_action b a) actions

pub record Edge : Type 0 where
  pub child_id : String
  pub user_id : String
  pub role : Role
  pub scope : Action → Option Bool
  pub observer_only : Bool
  pub restricted : Bool
  pub valid_from : Stamp
  pub valid_to : Stamp
  pub expires_at : Stamp
  pub closed_at : Stamp
  pub ladder_step : Option LadderStep

pub data Deny : Type 0 where
  no_edge edge_closed edge_expired outside_validity : Deny
  is_restricted ladder_none observer_readonly : Deny
  role_lacks_capability scope_denied : Deny
  p6_child_financial p7_journal_never tier_required : Deny

pub data Decision : Type 0 where
  allow : Decision
  deny : Deny → Decision

abbrev pub writes : List Action
writes =
    homework_annotate ∷ calendar_edit ∷ list_claim ∷ medication_log ∷ emergency_card_edit
    ∷ care_note_write ∷ archive_preserve ∷ expense_create ∷ expense_resolve ∷ ladder_advance
    ∷ settings ∷ []

abbrev pub contact : List Action
contact = call ∷ message ∷ []

abbrev pub role_caps : Role → List Action
role_caps guardian =
    call ∷ message ∷ homework_view ∷ homework_annotate ∷ calendar_view ∷ calendar_edit ∷ list_view
    ∷ list_claim ∷ medication_view ∷ medication_log ∷ emergency_card_view ∷ emergency_card_edit
    ∷ archive_view ∷ archive_preserve ∷ export_raw ∷ export_certified ∷ expense_view
    ∷ expense_create ∷ expense_resolve ∷ care_note_view ∷ care_note_write ∷ settings ∷ []
role_caps step_parent =
    call ∷ message ∷ homework_view ∷ calendar_view ∷ list_view ∷ medication_view
    ∷ emergency_card_view ∷ archive_view ∷ care_note_view ∷ []
role_caps trusted_adult = call ∷ message ∷ calendar_view ∷ archive_view ∷ []
role_caps sitter =
    emergency_card_view ∷ medication_view ∷ medication_log ∷ calendar_view ∷ care_note_view
    ∷ care_note_write ∷ []
role_caps foster_parent =
    call ∷ message ∷ homework_view ∷ homework_annotate ∷ calendar_view ∷ calendar_edit ∷ list_view
    ∷ list_claim ∷ medication_view ∷ medication_log ∷ emergency_card_view ∷ archive_view
    ∷ care_note_view ∷ care_note_write ∷ []
role_caps coordinator = calendar_view ∷ expense_view ∷ export_certified ∷ ladder_advance ∷ []
role_caps caseworker =
    calendar_view ∷ medication_view ∷ emergency_card_view ∷ care_note_view ∷ ladder_advance ∷ []
role_caps therapist = ladder_advance ∷ []

-- `action.startsWith('expense.')`
abbrev pub is_expense : Action → Bool
is_expense expense_view = true
is_expense expense_create = true
is_expense expense_resolve = true
is_expense _ = false

-- The position in `rank`, plus one; 0 for what is not in it (`indexOf` gives -1).
abbrev pub rank : Deny → ℕ
rank no_edge = 1
rank edge_closed = 2
rank edge_expired = 3
rank outside_validity = 4
rank is_restricted = 5
rank ladder_none = 6
rank observer_readonly = 7
rank role_lacks_capability = 8
rank scope_denied = 9
rank tier_required = 10
rank p6_child_financial = 0
rank p7_journal_never = 0

unfoldable pub worse : Deny → Deny → Deny
worse a b = if leb (rank b) (rank a) then a else b

-- `(e.ladderStep ?? 'open') === 'none'`
abbrev pub blocks_contact : Option LadderStep → Bool
blocks_contact (some none_step) = true
blocks_contact _ = false

-- `e.scope[action] === false`
abbrev pub scope_false : Option Bool → Bool
scope_false (some false) = true
scope_false _ = false

-- One round of the loop over the edges: why this edge does not grant the action, or `none` at the
-- `return { allow: true }`.
unfoldable pub refusal : Action → Bool → ℕ → Edge → Option Deny
refusal action court t e =
    if reached e.closed_at t
    then some edge_closed
    else if reached e.expires_at t
    then some edge_expired
    else if ahead e.valid_from t
    then some outside_validity
    else if reached e.valid_to t
    then some outside_validity
    else if e.restricted
    then some is_restricted
    else if blocks_contact e.ladder_step && includes contact action
    then some ladder_none
    else if e.observer_only && includes writes action
    then some observer_readonly
    else if not (includes (role_caps e.role) action)
    then some role_lacks_capability
    else if scope_false (e.scope action)
    then some scope_denied
    else if same_action action export_certified && not court
    then some tier_required
    else none

-- The loop, with the most specific refusal so far.
unfoldable pub evaluate : Action → Bool → ℕ → Deny → List Edge → Decision
evaluate action court t best [] = deny best
evaluate action court t best (e ∷ es) = elim (refusal action court t e) [
  | none ↦ allow
  | some d ↦ evaluate action court t (worse best d) es
]

abbrev pub for_child : String → List Edge → List Edge
for_child child_id = filterb (λ e. str_eq e.child_id child_id)

-- `actorRoleName === 'child'`
abbrev pub is_child : Option String → Bool
is_child none = false
is_child (some name) = str_eq name "child"

-- An empty `forChild` returns 'no_edge', which is also what the loop starts from.
unfoldable pub can : Action → List Edge → String → ℕ → Option String → Bool → Decision
can action edges child_id now actor_role court =
    if same_action action journal_read
    then deny p7_journal_never
    else if is_child actor_role && is_expense action
    then deny p6_child_financial
    else evaluate action court now no_edge (for_child child_id edges)

abbrev pub is_guardian : Role → Bool
is_guardian guardian = true
is_guardian _ = false

-- The test of `isSingleGuardianViable` on one edge.
unfoldable pub is_live_guardian : String → ℕ → Edge → Bool
is_live_guardian child_id now e =
    str_eq e.child_id child_id
    && is_absent e.closed_at
    && not e.restricted
    && not (blocks_contact e.ladder_step)
    && (is_absent e.expires_at || ahead e.expires_at now)
    && is_guardian e.role

unfoldable pub is_single_guardian_viable : List Edge → String → ℕ → Bool
unfolding is_live_guardian
is_single_guardian_viable edges child_id now =
    leb 1 (length (filterb (is_live_guardian child_id now) edges))

-- The text of a role, as callers pass it to `can`.
abbrev pub role_name : Role → String
role_name guardian = "guardian"
role_name trusted_adult = "trusted_adult"
role_name step_parent = "step_parent"
role_name sitter = "sitter"
role_name coordinator = "coordinator"
role_name foster_parent = "foster_parent"
role_name caseworker = "caseworker"
role_name therapist = "therapist"
