-- ===== src/Family/Gate.antt =====
-- What the decision `can` of authorize.ts promises: when it allows, and which refusal it gives.
use olive_branch.Prelude.{
  ℕ, ◌≤◌, ◌<◌, String, ◌≡◌, refl, ◌≢◌, ◌↔◌, inl, inr, Bool, true, false, Option, none, some, List,
  [], ◌∷◌, arith, Any, Option-cases, Bool-cases, str_eq, eq_iff, get_elem?, sym, ap, ◌∙◌, &&-false,
  ne_true, not, Any-map, Any-filterb, some-injective, ◌&&◌, ==_iff,
}
use olive_branch.Family.Stamps.{Stamp, at}
use olive_branch.Family.Authorize.{
  Action, call, message, homework_view, homework_annotate, calendar_view, calendar_edit, list_view,
  list_claim, medication_view, medication_log, emergency_card_view, emergency_card_edit,
  archive_view, archive_preserve, export_raw, export_certified, expense_view, expense_create,
  expense_resolve, care_note_view, care_note_write, ladder_advance, settings, letter, journal_read,
  ordinal, same_action, includes, Edge, Deny, no_edge, allow, writes, contact, role_caps,
  is_expense, worse, none_step, LadderStep, blocks_contact, refusal, evaluate, for_child, is_child,
  can,
}

-- The instant lies ahead, or there is none that could be read.
abbrev pub NotReached : Stamp → ℕ → Type 0
NotReached (at s) t = t < s
NotReached _ t = Unit

abbrev pub NotAhead : Stamp → ℕ → Type 0
NotAhead (at s) t = s ≤ t
NotAhead _ t = Unit

abbrev pub Listed : Action → List Action → Type 0
Listed a = Any (λ b. b ≡ a)

-- What it takes for one edge to grant an action, without the order of the tests.
pub record Grants (action : Action) (court : Bool) (t : ℕ) (child_id : String) (e : Edge)
    : Type 0 where
  pub for_her : e.child_id ≡ child_id
  pub not_closed : NotReached e.closed_at t
  pub not_expired : NotReached e.expires_at t
  pub begun : NotAhead e.valid_from t
  pub not_ended : NotReached e.valid_to t
  pub not_restricted : e.restricted ≡ false
  pub contact_open : e.ladder_step ≡ some none_step → ¬ Listed action contact
  pub may_write : e.observer_only ≡ true → ¬ Listed action writes
  pub capable : Listed action (role_caps e.role)
  pub in_scope : e.scope action ≢ some false
  pub in_tier : action ≡ export_certified → court ≡ true

-- The numbers of the actions are all different: each is the place of its action in a list.
abbrev all_actions : List Action
all_actions =
    call ∷ message ∷ homework_view ∷ homework_annotate ∷ calendar_view ∷ calendar_edit ∷ list_view
    ∷ list_claim ∷ medication_view ∷ medication_log ∷ emergency_card_view ∷ emergency_card_edit
    ∷ archive_view ∷ archive_preserve ∷ export_raw ∷ export_certified ∷ expense_view
    ∷ expense_create ∷ expense_resolve ∷ care_note_view ∷ care_note_write ∷ ladder_advance
    ∷ settings ∷ letter ∷ journal_read ∷ []

get_elem?-ordinal : (a : Action) → get_elem? all_actions (ordinal a) ≡ some a
get_elem?-ordinal call = refl
get_elem?-ordinal _ = refl

ordinal-injective : (a b : Action) → ordinal a ≡ ordinal b → a ≡ b
ordinal-injective a b h =
    some-injective _ _
      (sym (get_elem?-ordinal a) ∙ ap (get_elem? all_actions) h ∙ get_elem?-ordinal b)

pub same_action_iff : (a b : Action) → (same_action a b ≡ true) ↔ (a ≡ b)
unfolding same_action
same_action_iff a b =
    (λ h. ordinal-injective a b ((==_iff _ _).0 h), λ h. (==_iff _ _).1 (ap ordinal h))

pub includes→Listed : (bs : List Action) (a : Action) → includes bs a ≡ true → Listed a bs
unfolding includes
includes→Listed [] a h = cc
includes→Listed (b ∷ bs) a h = elim (Bool-cases (same_action b a)) [
  | inl e ↦ inl ((same_action_iff b a).0 e)
  | inr e ↦ inr (includes→Listed bs a (rw e at h))
]

pub Listed→includes : (bs : List Action) (a : Action) → Listed a bs → includes bs a ≡ true
unfolding includes
Listed→includes [] a h = absurd h
Listed→includes (b ∷ bs) a (inl e) = rw ((same_action_iff b a).1 e)
Listed→includes (b ∷ bs) a (inr h) = elim (Bool-cases (same_action b a)) [
  | inl e ↦ rw e
  | inr e ↦ rw e (Listed→includes bs a h)
]

pub refusal→Grants :
    (a : Action) (court : Bool) (t : ℕ) (child_id : String) (e : Edge)
    → e.child_id ≡ child_id
    → refusal a court t e ≡ none
    → Grants a court t child_id e
unfolding refusal
refusal→Grants a court t child_id e same_child h = record {
  for_her = same_child;
  not_closed = ground arith;
  not_expired = ground arith;
  begun = ground arith;
  not_ended = ground arith;
  not_restricted = ground arith;
  contact_open = λ n l. ground (arith, Listed→includes contact a l);
  may_write = λ o l. ground (arith, Listed→includes writes a l);
  capable = includes→Listed (role_caps e.role) a (ground arith);
  in_scope = λ s. ground arith;
  in_tier = λ s. ground (arith, (same_action_iff a export_certified).1 s);
}

blocks_contact→none_step : (l : Option LadderStep) → blocks_contact l ≡ true → l ≡ some none_step
blocks_contact→none_step l h = ground arith

pub Grants→refusal :
    (a : Action) (court : Bool) (t : ℕ) (child_id : String) (e : Edge)
    → Grants a court t child_id e
    → refusal a court t e ≡ none
unfolding refusal
Grants→refusal a court t child_id e g = ground (
  arith,
  Listed→includes (role_caps e.role) a g.capable,
  &&-false (blocks_contact e.ladder_step) (includes contact a)
      (λ b l. g.contact_open (blocks_contact→none_step _ b) (includes→Listed contact a l)),
  &&-false e.observer_only (includes writes a) (λ o l. g.may_write o (includes→Listed writes a l)),
  court_tier,
)
  where
    court_tier : (same_action a export_certified && not court) ≡ false
    court_tier = &&-false _ _ λ s n.
        let c : court ≡ true = g.in_tier ((same_action_iff a export_certified).0 s) in ground arith

pub evaluate_refused :
    (a : Action) (court : Bool) (t : ℕ) (best d : Deny) (e : Edge) (es : List Edge)
    → refusal a court t e ≡ some d
    → evaluate a court t best (e ∷ es) ≡ evaluate a court t (worse best d) es
unfolding evaluate
evaluate_refused a court t best d e es n = rw (n, evaluate)

evaluate_iff :
    (a : Action) (court : Bool) (t : ℕ) (best : Deny) (es : List Edge)
    → (evaluate a court t best es ≡ allow) ↔ Any (λ e. refusal a court t e ≡ none) es
unfolding evaluate
evaluate_iff a court t best [] = (λ h. cc, λ h. absurd h)
evaluate_iff a court t best (e ∷ es) = elim (Option-cases (refusal a court t e)) [
  | inl n ↦ (λ h. inl n, λ h. rw (n, evaluate))
  | inr (d, n) ↦
      let (to, from) = evaluate_iff a court t (worse best d) es in
      rw (evaluate_refused a court t best d e es n)
        (λ h. inr (to h), λ h. elim h [ inl m ↦ absurd (cc) | inr r ↦ from r ])
]

for_child_iff :
    (a : Action) (court : Bool) (t : ℕ) (child_id : String) (es : List Edge)
    → Any (λ e. refusal a court t e ≡ none) (for_child child_id es)
      ↔ Any (Grants a court t child_id) es
for_child_iff a court t child_id es =
    let (to, from) =
      Any-filterb (λ e. refusal a court t e ≡ none) (λ e. str_eq e.child_id child_id) es in
    (
      λ h.
          Any-map _ _ es (λ e p. refusal→Grants a court t child_id e ((eq_iff _ _).0 p.0) p.1)
            (to h),
      λ h. from (
          Any-map _ _ es
            (λ e g.
              ((eq_iff e.child_id child_id).1 g.for_her, Grants→refusal a court t child_id e g))
            h),
    )

-- What `can` refuses before it looks at an edge.
abbrev pub ChildFinancial : Option String → Action → Type 0
ChildFinancial role a = (role ≡ some "child") × (is_expense a ≡ true)

is_child_iff : (role : Option String) → (is_child role ≡ true) ↔ (role ≡ some "child")
is_child_iff none = (λ h. cc, λ h. cc)
is_child_iff (some n) =
    (λ h. ap some ((eq_iff n "child").0 h), λ h. (eq_iff n "child").1 (some-injective _ _ h))

-- `can` allows an action exactly when it is not reading the journal, is not a money action by a
-- child, and some edge of the list grants it for this child: an edge that is neither closed nor
-- expired, inside its validity, unrestricted, open to contact where the action is contact, not an
-- observer's where the action writes, of a role that has the capability, not switched off in scope,
-- and of the court tier where the action is a certified export.
pub can_iff :
    (a : Action) (es : List Edge) (child_id : String) (now : ℕ) (role : Option String)
    (court : Bool)
    → (can a es child_id now role court ≡ allow)
      ↔ ((a ≢ journal_read) × ¬ ChildFinancial role a × Any (Grants a court now child_id) es)
unfolding can
can_iff a es child_id now role court =
    let (to, from) = evaluate_iff a court now no_edge (for_child child_id es) in
    let (here, there) = for_child_iff a court now child_id es in
    (
      λ h. (
        λ j. ground (arith, (same_action_iff a journal_read).1 j),
        λ f. ground (arith, (is_child_iff role).1 f.0),
        here (to (ground arith)),
      ),
      λ h. ground (
        arith,
        from (there h.2),
        (same_action_iff a journal_read).0,
        &&-false (is_child role) (is_expense a) (λ c x. h.1 ((is_child_iff role).0 c, x)),
        ne_true (same_action a journal_read) (λ j. h.0 ((same_action_iff a journal_read).0 j)),
      ),
    )
