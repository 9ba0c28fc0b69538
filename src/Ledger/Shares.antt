-- ===== src/Ledger/Shares.antt =====
-- ledger.ts: an amount divided by basis points, and what each party is owed after several expenses.
-- The products of cents and basis points are exact numbers here; the source's are doubles, which
-- divide and round down to the same number while the product is below 2 ^ 53.
use olive_branch.Prelude.{
  ℕ, zero, suc, ◌+◌, ◌-◌, ◌*◌, ◌/◌, ◌%◌, Bool, true, false, Option, none, some, List, [], ◌∷◌, ◌==◌,
  if◌then◌else◌, length, get_elem?, sort,
}
use olive_branch.Ledger.Framing.{Text}
use olive_branch.Ledger.Chain.{text_eq}

-- One entry of `SplitRule`, in the order of `Object.keys`.
pub record Part : Type 0 where
  pub id : Text
  pub basis_points : ℕ

pub data ExpenseStatus : Type 0 where
  proposed accepted disputed reimbursed : ExpenseStatus

pub record Expense : Type 0 where
  pub paid_by : Text
  pub amount_cents : ℕ
  pub status : ExpenseStatus

-- One entry of the record that `allocate` returns.
pub record Share : Type 0 where
  pub id : Text
  pub cents : ℕ

abbrev pub total : List Part → ℕ
total [] = 0
total (p ∷ ps) = p.basis_points + total ps

abbrev pub assigned : List Share → ℕ
assigned [] = 0
assigned (s ∷ ss) = s.cents + assigned ss

unfoldable pub floors : ℕ → List Part → List Share
floors amount [] = []
floors amount (p ∷ ps) =
    record { id = p.id; cents = amount * p.basis_points / 10000 } ∷ floors amount ps

-- `out[id] += 1`
unfoldable pub add_cent : Text → List Share → List Share
add_cent id [] = []
add_cent id (s ∷ ss) =
    let rest = add_cent id ss in
    if text_eq id s.id then record { id = s.id; cents = s.cents + 1 } ∷ ss else s ∷ rest

-- The loop over `byRemainder`, from index `i`, with the residue that is left. An index out of range
-- throws.
unfoldable pub distribute : ℕ → ℕ → List Text → List Share → Option (List Share)
unfolding add_cent
distribute zero i by_remainder out = some out
distribute (suc residue) i by_remainder out = elim (get_elem? by_remainder i) [
  | none ↦ none
  | some id ↦ distribute residue ((i + 1) % length by_remainder) by_remainder (add_cent id out)
]

abbrev pub ids : List Part → List Text
ids [] = []
ids (p ∷ ps) = p.id ∷ ids ps

-- An entry of the record that `owedTo` returns. The source keeps one number that may be negative:
-- what the party fronted less what it owes.
pub record Balance : Type 0 where
  pub id : Text
  pub fronted : ℕ
  pub owed : ℕ

abbrev pub opening : List Part → List Balance
opening [] = []
opening (p ∷ ps) = record { id = p.id; fronted = 0; owed = 0 } ∷ opening ps

abbrev pub is_disputed : ExpenseStatus → Bool
is_disputed disputed = true
is_disputed _ = false

-- The payer's net grows by the amount less the share, that of another shrinks by the share.
unfoldable pub entered : Text → ℕ → Share → Balance → Balance
entered payer amount s b = record {
  id = b.id;
  fronted = b.fronted + (if text_eq s.id payer then amount else 0);
  owed = b.owed + s.cents;
}

-- One round of the loop over the shares of an expense.
unfoldable pub charge : Text → ℕ → Share → List Balance → List Balance
unfolding entered
charge payer amount s [] = []
charge payer amount s (b ∷ bs) =
    let rest = charge payer amount s bs in
    if text_eq s.id b.id then entered payer amount s b ∷ bs else b ∷ rest

unfoldable pub charge_all : Text → ℕ → List Share → List Balance → List Balance
unfolding charge
charge_all payer amount [] net = net
charge_all payer amount (s ∷ ss) net = charge_all payer amount ss (charge payer amount s net)

-- `before amount rule a b` is the comparison of two parties by their fractional parts, which are
-- differences of doubles, and by `localeCompare`.
module _ (before : ℕ → List Part → Text → Text → Bool) where
  abbrev pub by_remainder : ℕ → List Part → List Text
  by_remainder amount rule = sort (before amount rule) (ids rule)

  -- `allocate`, with `none` for the error.
  unfoldable pub allocate : ℕ → List Part → Option (List Share)
  unfolding distribute floors
  allocate amount rule =
      if total rule == 10000
      then distribute (amount - assigned (floors amount rule)) 0 (by_remainder amount rule)
          (floors amount rule)
      else none

  -- The loop of `owedTo` over the expenses, with `none` for the error of `allocate`.
  unfoldable pub settle : List Part → List Expense → List Balance → Option (List Balance)
  unfolding charge_all
  settle rule [] net = some net
  settle rule (e ∷ es) net = elim (is_disputed e.status) [
    | true ↦ settle rule es net
    | false ↦ elim (allocate e.amount_cents rule) [
      | none ↦ none
      | some share ↦ settle rule es (charge_all e.paid_by e.amount_cents share net)
    ]
  ]

  unfoldable pub owed_to : List Expense → List Part → Option (List Balance)
  unfolding settle
  owed_to expenses rule = settle rule expenses (opening rule)
