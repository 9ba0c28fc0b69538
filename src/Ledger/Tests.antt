-- ===== src/Ledger/Tests.antt =====
-- The theorems on ledger.ts at concrete chains, with a hash that changes nothing.
use olive_branch.Prelude.{
  ◌≡◌, refl, ◌⊎◌, ◌↔◌, false, List, [], ◌∷◌, ◌++◌, length, ℕ, ◌*◌, ◌%◌, Bool, ltb, if◌then◌else◌,
  inl, inr, arith, some,
}
use olive_branch.Ledger.Framing.{Text}
use olive_branch.Ledger.Shares.{
  Part, Share, Expense, accepted, disputed, Balance, allocate, owed_to, assigned, total, ids,
  floors, add_cent, distribute,
}
use olive_branch.Ledger.Division.{cents_of, share_ids}
use olive_branch.Ledger.Rounding.{Distinct, allocate_iff, allocate-IsNear}
use olive_branch.Ledger.Netting.{owed_to-IsBalanced, fronted_sum, owed_sum, Paid}
use olive_branch.Ledger.Chain.{LogEntry, Input, append, serial, head_hash, verify_chain, text_eq}
use olive_branch.Ledger.Building.{verify_chain-append}
use olive_branch.Ledger.Tamper.{Collision, verify_chain_unique}
use olive_branch.Ledger.Export.{
  ExportRequest, certified, certify, verify_export, verify_export-certify, verify_export_unique,
}

abbrev hash : Text → Text
hash t = t

abbrev written : List LogEntry → Text
written chain = length chain ∷ []

abbrev note : Input
note = record {
  child_id = b'm' ∷ [];
  author_id = b'd' ∷ [];
  at = b'1' ∷ [];
  body = b'h' ∷ b'i' ∷ [];
}

chain : List LogEntry
chain = append hash [] note ∷ []

empty_verifies : verify_chain hash [] ≡ []
unfolding verify_chain
empty_verifies = refl

verify_chain-append_example : verify_chain hash ([] ++ append hash [] note ∷ []) ≡ []
verify_chain-append_example = verify_chain-append hash [] note empty_verifies tt

chain_verifies : verify_chain hash chain ≡ []
unfolding chain
chain_verifies = verify_chain-append hash [] note empty_verifies tt

same_length : length chain ≡ length chain
same_length = refl

same_head : head_hash chain ≡ head_hash chain
same_head = refl

verify_chain_unique_example : Collision hash ⊎ (chain ≡ chain)
verify_chain_unique_example =
    verify_chain_unique hash chain chain chain_verifies chain_verifies same_length same_head

abbrev entry : LogEntry
entry = record {
  seq = 12;
  child_id = [];
  author_id = [];
  at = [];
  body = b'x' ∷ [];
  prev_hash = [];
  hash = [];
}

same_serial : serial entry ≡ serial entry
same_serial = refl

abbrev request : ExportRequest
request = record {
  kind = certified;
  child_id = [];
  requested_by = [];
  court_tier = false;
  certified_in_last_12_months = 1;
}

own_export : verify_export hash written chain (certify hash written chain [] []) ≡ []
own_export = (verify_export-certify hash written chain [] []).1 chain_verifies

verify_export_unique_example : Collision hash ⊎ (chain ≡ chain)
verify_export_unique_example =
    verify_export_unique hash written chain chain [] [] chain_verifies own_export

-- The larger fractional part first, in tenths of a thousandth of a cent, and then as the ids stand.
abbrev fraction : ℕ → List Part → Text → ℕ
fraction amount [] id = 0
fraction amount (p ∷ ps) id =
    let rest = fraction amount ps id in
    if text_eq p.id id then amount * p.basis_points % 10000 else rest

abbrev by_fraction : ℕ → List Part → Text → Text → Bool
by_fraction amount rule a b = ltb (fraction amount rule b) (fraction amount rule a)

abbrev thirds : List Part
thirds =
    record { id = b'a' ∷ []; basis_points = 3333 }
    ∷ record { id = b'b' ∷ []; basis_points = 3333 }
    ∷ record { id = b'c' ∷ []; basis_points = 3334 }
    ∷ []

abbrev dollar : List Share
dollar =
    record { id = b'a' ∷ []; cents = 33 }
    ∷ record { id = b'b' ∷ []; cents = 33 }
    ∷ record { id = b'c' ∷ []; cents = 34 }
    ∷ []

dollar_in_thirds : allocate by_fraction 100 thirds ≡ some dollar
unfolding allocate distribute floors add_cent
dollar_in_thirds = refl

total-thirds : total thirds ≡ 10000
total-thirds = refl

thirds-Distinct : Distinct thirds
thirds-Distinct [] = ground arith
thirds-Distinct (x ∷ []) = ground arith
thirds-Distinct (x ∷ y ∷ rest) = ground arith

allocate_iff_example : (total thirds ≡ 10000) ↔ (
    (result : List Share) × (allocate by_fraction 100 thirds ≡ some result)
    × (assigned result ≡ 100)
    × (share_ids result ≡ ids thirds))
allocate_iff_example = allocate_iff by_fraction 100 thirds

allocate-IsNear_example : (cents_of (b'c' ∷ []) dollar ≡ 33) ⊎ (cents_of (b'c' ∷ []) dollar ≡ 34)
allocate-IsNear_example =
    allocate-IsNear by_fraction 100 thirds dollar (record { id = b'c' ∷ []; basis_points = 3334 })
      thirds-Distinct (inr (inr (inl refl))) dollar_in_thirds

abbrev expenses : List Expense
expenses =
    record { paid_by = b'a' ∷ []; amount_cents = 100; status = accepted }
    ∷ record { paid_by = b'd' ∷ []; amount_cents = 999; status = disputed }
    ∷ []

expenses-Paid : Paid thirds expenses
expenses-Paid = (λ e. refl, (λ e. absurd (cc), tt))

owed_to-IsBalanced_example :
    (result : List Balance) × (owed_to by_fraction expenses thirds ≡ some result)
    × (owed_sum result ≡ 100)
    × (fronted_sum result ≡ 100)
owed_to-IsBalanced_example =
    owed_to-IsBalanced by_fraction expenses thirds total-thirds expenses-Paid
