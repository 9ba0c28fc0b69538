-- ===== src/Family/Refusals.antt =====
-- The actions that `can` of authorize.ts never allows, the refusal that it reports, and the family
-- with one guardian.
use olive_branch.Prelude.{
  ℕ, ◌≤◌, String, ◌≡◌, refl, ◌≢◌, ◌⊎◌, inl, inr, Bool, true, false, Option, some, List, [], ◌∷◌,
  arith, Any, All, Option-cases, Bool-cases, eq_iff, filterb, filterb-neg, leb, leb→le, length, sym,
  ap, subst, ◌∙◌,
}
use olive_branch.Family.Authorize.{
  Role, Action, letter, journal_read, export_certified, Edge, Deny, no_edge, p7_journal_never,
  p6_child_financial, allow, deny, role_caps, rank, worse, refusal, evaluate, for_child, can,
  guardian, is_live_guardian, is_single_guardian_viable, is_guardian,
}
use olive_branch.Family.Gate.{
  NotReached, NotAhead, Listed, Grants, ChildFinancial, evaluate_refused, can_iff,
}

no_role_capable : (r : Role) → ¬ Listed letter (role_caps r)
no_role_capable guardian h = ground arith
no_role_capable _ h = ground arith

no_grant :
    (a : Action) (court : Bool) (t : ℕ) (child_id : String) (es : List Edge)
    → ((r : Role) → ¬ Listed a (role_caps r))
    → ¬ Any (Grants a court t child_id) es
no_grant a court t child_id [] never h = h
no_grant a court t child_id (e ∷ es) never (inl g) = never e.role g.capable
no_grant a court t child_id (e ∷ es) never (inr h) = no_grant a court t child_id es never h

-- Neither reading the journal nor sending a letter is ever allowed by `can`, whatever the edges,
-- their scopes, the caller's role and the tier are.
pub can-ne-allow :
    (a : Action) (es : List Edge) (child_id : String) (now : ℕ) (role : Option String)
    (court : Bool)
    → (a ≡ journal_read) ⊎ (a ≡ letter)
    → can a es child_id now role court ≢ allow
can-ne-allow a es child_id now role court (inl j) h =
    ((can_iff a es child_id now role court).0 h).0 j
can-ne-allow a es child_id now role court (inr l) h =
    no_grant a court now child_id es (λ r. rw l (no_role_capable r))
      ((can_iff a es child_id now role court).0 h).2

-- The refusal `d` is at least as specific as that of edge `e`.
abbrev pub Covers : Action → Bool → ℕ → Deny → Edge → Type 0
Covers a court t d e = (x : Deny) × (refusal a court t e ≡ some x) × (rank x ≤ rank d)

worse_bounds :
    (a b : Deny)
    → (rank a ≤ rank (worse a b))
      × (rank b ≤ rank (worse a b))
      × ((worse a b ≡ a) ⊎ (worse a b ≡ b))
unfolding worse
worse_bounds a b = elim (Bool-cases (leb (rank b) (rank a))) [
  | inl e ↦ rw e (ground arith, leb→le _ _ e, inl refl)
  | inr e ↦ rw e (ground arith, ground arith, inr refl)
]

evaluate_denied :
    (a : Action) (court : Bool) (t : ℕ) (best d : Deny) (es : List Edge)
    → evaluate a court t best es ≡ deny d
    → (rank best ≤ rank d)
      × All (Covers a court t d) es
      × ((d ≡ best) ⊎ Any (λ e. refusal a court t e ≡ some d) es)
unfolding evaluate
evaluate_denied a court t best d [] h =
    let e : best ≡ d = ground arith in (rw e (omega arith), tt, inl (sym e))
evaluate_denied a court t best d (e ∷ es) h = elim (Option-cases (refusal a court t e)) [
  | inl n ↦ absurd (ground arith)
  | inr (x, n) ↦
      let (up, covered, source) =
        evaluate_denied a court t (worse best x) d es
          (sym (evaluate_refused a court t best x e es n) ∙ h) in
      let (left, right, either) = worse_bounds best x in
      (
        omega arith,
        ((x, n, omega arith), covered),
        elim source [
          | inl same ↦ elim either [
            | inl b ↦ inl (same ∙ b)
            | inr b ↦ inr (inl (n ∙ ap some (sym (same ∙ b))))
          ]
          | inr later ↦ inr (inr later)
        ],
      )
]

-- When `can` denies an action for a reason other than its two prohibitions, that reason is the
-- refusal of one of this child's edges, or 'no_edge', and no edge of hers was refused for a
-- reason that stands further down the code's ranking.
pub can_denied :
    (a : Action) (es : List Edge) (child_id : String) (now : ℕ) (role : Option String)
    (court : Bool) (d : Deny)
    → can a es child_id now role court ≡ deny d
    → d ≢ p7_journal_never
    → d ≢ p6_child_financial
    → All (Covers a court now d) (for_child child_id es)
      × ((d ≡ no_edge) ⊎ Any (λ e. refusal a court now e ≡ some d) (for_child child_id es))
unfolding can
can_denied a es child_id now role court d h p q =
    let (up, covered, source) =
      evaluate_denied a court now no_edge d (for_child child_id es) (ground arith) in
    (covered, source)

-- A guardian's edge that narrows nothing: it has begun, has no end behind it, does not only
-- observe, and its scope does not switch the action off.
pub record Unnarrowed (a : Action) (now : ℕ) (e : Edge) : Type 0 where
  pub begun : NotAhead e.valid_from now
  pub not_ended : NotReached e.valid_to now
  pub takes_part : e.observer_only ≡ false
  pub in_scope : e.scope a ≢ some false

is_guardian→guardian : (r : Role) → is_guardian r ≡ true → r ≡ guardian
is_guardian→guardian r h = ground arith

live_guardian-Grants :
    (a : Action) (court : Bool) (child_id : String) (now : ℕ) (e : Edge)
    → Listed a (role_caps guardian)
    → a ≢ export_certified
    → Unnarrowed a now e
    → is_live_guardian child_id now e ≡ true
    → Grants a court now child_id e
unfolding is_live_guardian
live_guardian-Grants a court child_id now e l x u h = record {
  for_her = ground (arith, eq_iff e.child_id child_id);
  not_closed = ground arith;
  not_expired = ground arith;
  begun = u.begun;
  not_ended = u.not_ended;
  not_restricted = ground arith;
  contact_open = λ n _. ground arith;
  may_write = λ o _. ground (arith, u.takes_part);
  capable =
      subst (λ r. Listed a (role_caps r)) (sym (is_guardian→guardian e.role (ground arith))) l;
  in_scope = u.in_scope;
  in_tier = λ y. absurd (x y);
}

Any-nonempty :
    (p : Edge → Bool) (es : List Edge)
    → leb 1 (length (filterb p es)) ≡ true
    → Any (λ e. p e ≡ true) es
Any-nonempty p [] h = cc
Any-nonempty p (e ∷ es) h = elim (Bool-cases (p e)) [
  | inl y ↦ inl y
  | inr n ↦ inr (Any-nonempty p es (rw (filterb-neg p e es n) at h))
]

Any-Grants :
    (a : Action) (court : Bool) (child_id : String) (now : ℕ) (es : List Edge)
    → Listed a (role_caps guardian)
    → a ≢ export_certified
    → All (Unnarrowed a now) es
    → Any (λ e. is_live_guardian child_id now e ≡ true) es
    → Any (Grants a court now child_id) es
Any-Grants a court child_id now [] l x u h = h
Any-Grants a court child_id now (e ∷ es) l x (u, us) (inl y) =
    inl (live_guardian-Grants a court child_id now e l x u y)
Any-Grants a court child_id now (e ∷ es) l x (u, us) (inr h) =
    inr (Any-Grants a court child_id now es l x us h)

-- A family that `isSingleGuardianViable` accepts can use the product: where no edge is narrowed
-- (validity, observing, scope), `can` allows the caller every capability of a guardian but the
-- certified export, on any tier, unless a child asks about money.
pub viable-can :
    (a : Action) (es : List Edge) (child_id : String) (now : ℕ) (role : Option String)
    (court : Bool)
    → is_single_guardian_viable es child_id now ≡ true
    → All (Unnarrowed a now) es
    → Listed a (role_caps guardian)
    → a ≢ export_certified
    → ¬ ChildFinancial role a
    → can a es child_id now role court ≡ allow
unfolding is_single_guardian_viable
viable-can a es child_id now role court v u l x f = (can_iff a es child_id now role court).1 (
  λ j. not_journal (subst (λ b. Listed b (role_caps guardian)) j l),
  f,
  Any-Grants a court child_id now es l x u (Any-nonempty (is_live_guardian child_id now) es v),
)
  where
    not_journal : ¬ Listed journal_read (role_caps guardian)
    not_journal h = ground arith
