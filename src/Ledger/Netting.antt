-- ===== src/Ledger/Netting.antt =====
-- The balances of ledger.ts's `owedTo`.
use olive_branch.Prelude.{
  ℕ, ◌+◌, ◌≤◌, ◌≡◌, refl, sym, ◌∙◌, ap, subst, Bool, true, false, some, List, [], ◌∷◌,
  if◌then◌else◌, All, Bool-cases, arith, inl, inr,
}
use olive_branch.Ledger.Framing.{Text}
use olive_branch.Ledger.Chain.{text_eq}
use olive_branch.Ledger.Tamper.{text_eq_refl}
use olive_branch.Ledger.Shares.{
  Part, Share, Expense, Balance, total, assigned, ids, allocate, opening, is_disputed, entered,
  charge, charge_all, settle, owed_to,
}
use olive_branch.Ledger.Division.{share_ids, times}
use olive_branch.Ledger.Rounding.{allocate_iff}

abbrev balance_ids : List Balance → List Text
balance_ids [] = []
balance_ids (b ∷ bs) = b.id ∷ balance_ids bs

abbrev pub fronted_sum : List Balance → ℕ
fronted_sum [] = 0
fronted_sum (b ∷ bs) = b.fronted + fronted_sum bs

abbrev pub owed_sum : List Balance → ℕ
owed_sum [] = 0
owed_sum (b ∷ bs) = b.owed + owed_sum bs

-- What the expenses come to that are not disputed.
abbrev pub spent : List Expense → ℕ
spent [] = 0
spent (e ∷ es) = (if is_disputed e.status then 0 else e.amount_cents) + spent es

-- How much the shares of one expense add to what the payer fronted.
abbrev fronts : Text → ℕ → List Share → ℕ
fronts payer amount [] = 0
fronts payer amount (s ∷ ss) = (if text_eq s.id payer then amount else 0) + fronts payer amount ss

text_eq_sym : (a b : Text) → text_eq a b ≡ text_eq b a
text_eq_sym [] [] = refl
text_eq_sym [] (y ∷ ys) = refl
text_eq_sym (x ∷ xs) [] = refl
text_eq_sym (x ∷ xs) (y ∷ ys) = ground (arith, text_eq_sym xs ys)

fronts-none :
    (payer : Text) (amount : ℕ) (ss : List Share)
    → times payer (share_ids ss) ≡ 0
    → fronts payer amount ss ≡ 0
fronts-none payer amount [] h = refl
fronts-none payer amount (s ∷ ss) h =
    ground (arith, text_eq_sym s.id payer, fronts-none payer amount ss)

fronts-once :
    (payer : Text) (amount : ℕ) (ss : List Share)
    → times payer (share_ids ss) ≡ 1
    → fronts payer amount ss ≡ amount
fronts-once payer amount [] h = absurd (omega arith)
fronts-once payer amount (s ∷ ss) h =
    ground (arith, text_eq_sym s.id payer, fronts-once payer amount ss, fronts-none payer amount ss)

charge-ids :
    (payer : Text) (amount : ℕ) (s : Share) (net : List Balance)
    → balance_ids (charge payer amount s net) ≡ balance_ids net
unfolding charge entered
charge-ids payer amount s [] = refl
charge-ids payer amount s (b ∷ bs) = ground (arith, charge-ids payer amount s bs)

charge-sums :
    (payer : Text) (amount : ℕ) (s : Share) (net : List Balance)
    → 1 ≤ times s.id (balance_ids net)
    → (owed_sum (charge payer amount s net) ≡ owed_sum net + s.cents)
      × (fronted_sum (charge payer amount s net)
          ≡ fronted_sum net + (if text_eq s.id payer then amount else 0))
unfolding charge entered
charge-sums payer amount s [] h = absurd (omega arith)
charge-sums payer amount s (b ∷ bs) h = elim (Bool-cases (text_eq s.id b.id)) [
  | inl hit ↦ rw hit (omega arith, omega arith)
  | inr miss ↦
      let (o, f) = charge-sums payer amount s bs (ground (arith, miss, h)) in
      rw miss (omega arith, omega arith)
]

-- Every share belongs to a party of the balances.
abbrev Known : List Share → List Text → Type 0
Known [] xs = Unit
Known (s ∷ ss) xs = (1 ≤ times s.id xs) × Known ss xs

charge_all-sums :
    (payer : Text) (amount : ℕ) (ss : List Share) (net : List Balance)
    → Known ss (balance_ids net)
    → (owed_sum (charge_all payer amount ss net) ≡ owed_sum net + assigned ss)
      × (fronted_sum (charge_all payer amount ss net) ≡ fronted_sum net + fronts payer amount ss)
      × (balance_ids (charge_all payer amount ss net) ≡ balance_ids net)
unfolding charge_all
charge_all-sums payer amount [] net h = (omega arith, omega arith, refl)
charge_all-sums payer amount (s ∷ ss) net (h, k) =
    let (o, f) = charge-sums payer amount s net h in
    let same = charge-ids payer amount s net in
    let (o', f', same') =
      charge_all-sums payer amount ss (charge payer amount s net) (subst (Known ss) (sym same) k) in
    (omega arith, omega arith, same' ∙ same)

Known-more : (ss : List Share) (x : Text) (xs : List Text) → Known ss xs → Known ss (x ∷ xs)
Known-more [] x xs h = tt
Known-more (s ∷ ss) x xs (h, k) = (omega arith, Known-more ss x xs k)

Known-own : (ss : List Share) → Known ss (share_ids ss)
Known-own [] = tt
Known-own (s ∷ ss) =
    (ground (arith, text_eq_refl s.id), Known-more ss s.id (share_ids ss) (Known-own ss))

opening-sums :
    (rule : List Part)
    → (owed_sum (opening rule) ≡ 0)
      × (fronted_sum (opening rule) ≡ 0)
      × (balance_ids (opening rule) ≡ ids rule)
opening-sums [] = (refl, refl, refl)
opening-sums (p ∷ ps) =
    let (o, f, same) = opening-sums ps in (omega arith, omega arith, ap (λ l. p.id ∷ l) same)

-- Each expense that is not disputed was paid by one party of the rule.
abbrev pub Paid : List Part → List Expense → Type 0
Paid rule es = All (λ e. (is_disputed e.status ≡ false → times e.paid_by (ids rule) ≡ 1)) es

module _ (before : ℕ → List Part → Text → Text → Bool) where
  settle-skips :
      (rule : List Part) (e : Expense) (es : List Expense) (net : List Balance)
      → is_disputed e.status ≡ true
      → settle before rule (e ∷ es) net ≡ settle before rule es net
  unfolding settle
  settle-skips rule e es net h = rw (h, settle) refl

  settle-charges :
      (rule : List Part) (e : Expense) (es : List Expense) (net : List Balance) (share : List Share)
      → is_disputed e.status ≡ false
      → allocate before e.amount_cents rule ≡ some share
      → settle before rule (e ∷ es) net
        ≡ settle before rule es (charge_all e.paid_by e.amount_cents share net)
  unfolding settle
  settle-charges rule e es net share h a = rw (h, a, settle) refl

  settle-sums :
      (rule : List Part) (es : List Expense) (net : List Balance)
      → total rule ≡ 10000
      → Paid rule es
      → balance_ids net ≡ ids rule
      → (result : List Balance) × (settle before rule es net ≡ some result)
        × (owed_sum result ≡ owed_sum net + spent es)
        × (fronted_sum result ≡ fronted_sum net + spent es)
        × (balance_ids result ≡ ids rule)
  settle-sums rule [] net t p same = unfold settle in (net, refl, omega arith, omega arith, same)
  settle-sums rule (e ∷ es) net t (p, ps) same = elim (Bool-cases (is_disputed e.status)) [
    | inl skip ↦
        let (result, r, o, f, kept) = settle-sums rule es net t ps same in
        rw skip (result, settle-skips rule e es net skip ∙ r, omega arith, omega arith, kept)
    | inr counts ↦
        let (share, a, sum, own) = (allocate_iff before e.amount_cents rule).0 t in
        let (o, f, kept) =
          charge_all-sums e.paid_by e.amount_cents share net
            (subst (Known share) (own ∙ sym same) (Known-own share)) in
        let fr = fronts-once e.paid_by e.amount_cents share (ap (times e.paid_by) own ∙ p counts) in
        let (result, r, o', f', same') =
          settle-sums rule es (charge_all e.paid_by e.amount_cents share net) t ps (kept ∙ same) in
        rw counts
          (result, settle-charges rule e es net share counts a ∙ r, omega arith, omega arith, same')
  ]

  -- Where the basis points total 10000 and each expense that is not disputed was paid by one party
  -- of the rule, the balances are returned, and what was fronted and what is owed come to the same,
  -- the sum of these expenses: the balances sum to zero.
  pub owed_to-IsBalanced :
      (expenses : List Expense) (rule : List Part)
      → total rule ≡ 10000
      → Paid rule expenses
      → (result : List Balance) × (owed_to before expenses rule ≡ some result)
        × (owed_sum result ≡ spent expenses)
        × (fronted_sum result ≡ spent expenses)
  unfolding owed_to
  owed_to-IsBalanced expenses rule t p =
      let (o, f, same) = opening-sums rule in
      let (result, r, o', f', same') = settle-sums rule expenses (opening rule) t p same in
      (result, r, omega arith, omega arith)
