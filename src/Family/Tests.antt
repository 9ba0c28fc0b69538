-- ===== src/Family/Tests.antt =====
-- The theorems on authorize.ts at concrete families.
use olive_branch.Prelude.{
  ◌≡◌, refl, ◌≢◌, ◌↔◌, ◌⊎◌, inl, inr, true, false, none, some, [], ◌∷◌, All, Any,
}
use olive_branch.Family.Stamps.{at, absent}
use olive_branch.Family.Authorize.{
  Action, call, message, journal_read, expense_view, Role, guardian, Edge, Deny, allow, deny, can,
  is_single_guardian_viable, role_caps, refusal, for_child, edge_closed, no_edge, p7_journal_never,
  p6_child_financial, export_certified,
}
use olive_branch.Family.Gate.{Grants, ChildFinancial, Listed, can_iff}
use olive_branch.Family.Refusals.{Covers, Unnarrowed, can_denied}

abbrev dad : Edge
dad = record {
  child_id = "mia";
  user_id = "dad";
  role = guardian;
  scope = λ a. none;
  observer_only = false;
  restricted = false;
  valid_from = absent;
  valid_to = absent;
  expires_at = absent;
  closed_at = absent;
  ladder_step = none;
}

abbrev former : Edge
former = record dad { user_id = "uncle"; closed_at = at 3 }

can_iff_example : (can call (dad ∷ []) "mia" 5 none false ≡ allow) ↔ (
    (call ≢ journal_read) × ¬ ChildFinancial none call × Any (Grants call false 5 "mia") (dad ∷ []))
can_iff_example = can_iff call (dad ∷ []) "mia" 5 none false

denied : can call (former ∷ []) "mia" 5 none false ≡ deny edge_closed
unfolding can olive_branch.Family.Authorize.same_action olive_branch.Family.Authorize.evaluate
    refusal olive_branch.Family.Authorize.worse
denied = refl

other_7 : edge_closed ≢ p7_journal_never
other_7 h = cc

other_6 : edge_closed ≢ p6_child_financial
other_6 h = cc

can_denied_example :
    All (Covers call false 5 edge_closed) (for_child "mia" (former ∷ []))
    × ((edge_closed ≡ no_edge)
        ⊎ Any (λ e. refusal call false 5 e ≡ some edge_closed) (for_child "mia" (former ∷ [])))
can_denied_example =
    can_denied call (former ∷ []) "mia" 5 none false edge_closed denied other_7 other_6

viable : is_single_guardian_viable (dad ∷ []) "mia" 5 ≡ true
unfolding is_single_guardian_viable
viable = refl

unnarrowed : All (Unnarrowed message 5) (dad ∷ [])
unnarrowed = (record { begun = tt; not_ended = tt; takes_part = refl; in_scope = λ h. cc }, tt)

other_export : message ≢ export_certified
other_export h = cc

no_money : ¬ ChildFinancial none message
no_money (role, _) = cc

may_message : Listed message (role_caps guardian)
may_message = inr (inl refl)
