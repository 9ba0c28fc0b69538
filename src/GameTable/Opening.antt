-- ===== src/GameTable/Opening.antt =====
-- T4 of table.ts: who may open a table together.
use olive_branch.Prelude.{
  ℕ, String, ◌≡◌, refl, ◌≢◌, ◌↔◌, ◌⊎◌, true, false, Option, none, some, List, arith, Any, eq_iff,
  str_lt, sym, subst, some-injective,
}
use olive_branch.Family.Authorize.{
  Role, role_name, Edge, Decision, call, can, journal_read, is_child,
}
use olive_branch.Family.Authorize
use olive_branch.Family.Gate.{Grants, can_iff, ChildFinancial}
use olive_branch.GameTable.Principals.{
  TablePrincipal, adult, child, SiblingLink, allow, can_open_table, sibling_link_matches,
  edges_or_none, from_call,
}

-- The link of two children stands in canonical order.
abbrev pub Links : SiblingLink → String → String → Type 0
Links l x y =
    ((str_lt x y ≡ true) × (l.child_a ≡ x) × (l.child_b ≡ y))
    ⊎ ((str_lt x y ≡ false) × (l.child_a ≡ y) × (l.child_b ≡ x))

-- Two different children with a link that allows contact, or an adult and a child whom one of
-- the adult's own edges lets call.
abbrev pub MayMeet :
    ℕ → Option (List Edge) → Option SiblingLink → TablePrincipal → TablePrincipal → Type 0
MayMeet now edges link (child x) (child y) =
    (x ≢ y) × ((l : SiblingLink) × (link ≡ some l) × Links l x y × (l.contact_allowed ≡ true))
MayMeet now edges link (adult u r) (adult v s) = ⊥
MayMeet now edges link (adult u r) (child y) =
    (es : List Edge) × (edges ≡ some es) × Any (Grants call false now y) es
MayMeet now edges link (child x) (adult v s) =
    (es : List Edge) × (edges ≡ some es) × Any (Grants call false now x) es

no-ChildFinancial : (r : Role) → ¬ ChildFinancial (some (role_name r)) call
no-ChildFinancial r h = ground arith

from_call_iff : (d : Authorize.Decision) → (from_call d ≡ allow) ↔ (d ≡ Authorize.Decision.allow)
from_call_iff d = ground arith

Any-empty :
    (edges : Option (List Edge)) (P : Edge → Type 0)
    → Any P (edges_or_none edges) ↔ ((es : List Edge) × (edges ≡ some es) × Any P es)
Any-empty none P = (λ h. absurd h, λ h. cc)
Any-empty (some es) P = (λ h. (es, refl, h), λ h. subst (Any P) (some-injective _ _ (sym h.1)) h.2)

call_iff :
    (edges : Option (List Edge)) (c : String) (now : ℕ) (r : Role)
    → (from_call (can call (edges_or_none edges) c now (some (role_name r)) false) ≡ allow)
      ↔ ((es : List Edge) × (edges ≡ some es) × Any (Grants call false now c) es)
call_iff edges c now r =
    let (to, from) = can_iff call (edges_or_none edges) c now (some (role_name r)) false in
    let (split, join) = Any-empty edges (Grants call false now c) in
    let (out, back) =
      from_call_iff (can call (edges_or_none edges) c now (some (role_name r)) false) in
    (λ h. split (to (out h)).2, λ h. back (from (λ j. cc, no-ChildFinancial r, join h)))

Links-iff : (l : SiblingLink) (x y : String) → (sibling_link_matches l x y ≡ true) ↔ Links l x y
unfolding sibling_link_matches
Links-iff l x y =
    ground (arith, eq_iff l.child_a x, eq_iff l.child_b y, eq_iff l.child_a y, eq_iff l.child_b x)

siblings_iff :
    (x y : String) (now : ℕ) (edges : Option (List Edge)) (link : Option SiblingLink)
    → (can_open_table (child x) (child y) now edges link ≡ allow)
      ↔ MayMeet now edges link (child x) (child y)
unfolding can_open_table
siblings_iff x y now edges none = (λ h. ground (arith, eq_iff x y), λ h. cc)
siblings_iff x y now edges (some l) = (
  λ h. (
    λ e. ground (arith, (eq_iff x y).1 e),
    (l, refl, (Links-iff l x y).0 (ground arith), ground arith),
  ),
  λ h.
      let (k, e, linked, allowed) = h.1 in
      let same = some-injective _ _ e in
      ground (
        arith,
        eq_iff x y,
        (Links-iff l x y).1 (subst (λ m. Links m x y) (sym same) linked),
        subst (λ m. m.contact_allowed ≡ true) (sym same) allowed,
      ),
)

-- A table may be opened exactly by two different children whose canonical sibling link allows
-- contact, or by an adult and a child whom one of the edges handed over for the adult lets call, in
-- either order. Two adults never may, and a sibling link never helps an adult.
pub can_open_table_iff :
    (a b : TablePrincipal) (now : ℕ) (edges : Option (List Edge)) (link : Option SiblingLink)
    → (can_open_table a b now edges link ≡ allow) ↔ MayMeet now edges link a b
unfolding can_open_table
can_open_table_iff (child x) (child y) now edges link = siblings_iff x y now edges link
can_open_table_iff (adult u r) (adult v s) now edges link = (λ h. cc, λ h. absurd h)
can_open_table_iff (adult u r) (child y) now edges link = call_iff edges y now r
can_open_table_iff (child x) (adult v s) now edges link = call_iff edges x now s
