-- ===== src/Ledger/Rounding.antt =====
-- The shares of ledger.ts's `allocate`: they sum to the amount, and each is rounded by less than a
-- cent.
use native.Mathlib.Nat.{mul-add}
use olive_branch.Prelude.{
  ℕ, suc, ◌+◌, ◌-◌, ◌*◌, ◌/◌, ◌≤◌, ◌<◌, ◌≡◌, refl, sym, ◌∙◌, ap, subst, ◌↔◌, ◌⊎◌, inl, inr, Bool,
  true, false, Option, none, some, List, [], ◌∷◌, ◌==◌, if◌then◌else◌, length, sort, insert,
  count-sort, Bool-cases, ==_iff, arith, Mem,
}
use olive_branch.Ledger.Framing.{Text}
use olive_branch.Ledger.Chain.{text_eq}
use olive_branch.Ledger.Tamper.{text_eq_refl}
use olive_branch.Ledger.Shares.{Part, Share, total, assigned, floors, ids, by_remainder, allocate}
use olive_branch.Ledger.Division.{
  share_ids, cents_of, times, drop, Covers, distribute-assigned, distribute-Gains,
}

-- What is lost by rounding down is less than a cent for each party.
floors-bounds :
    (amount : ℕ) (rule : List Part)
    → (10000 * assigned (floors amount rule) ≤ amount * total rule)
      × (amount * total rule ≤ 10000 * assigned (floors amount rule) + 9999 * length rule)
unfolding floors
floors-bounds amount [] = (omega arith, omega arith)
floors-bounds amount (p ∷ ps) =
    let (low, high) = floors-bounds amount ps in
    let split = mul-add amount p.basis_points (total ps) in (omega arith, omega arith)

floors-ids : (amount : ℕ) (rule : List Part) → share_ids (floors amount rule) ≡ ids rule
unfolding floors
floors-ids amount [] = refl
floors-ids amount (p ∷ ps) = ap (λ l. p.id ∷ l) (floors-ids amount ps)

length-insert :
    {A : Type 0} (before : A → A → Bool) (x : A) (ys : List A)
    → length (insert before x ys) ≡ suc (length ys)
length-insert before x [] = refl
length-insert before x (y ∷ ys) = ground (arith, length-insert before x ys)

length-sort :
    {A : Type 0} (before : A → A → Bool) (xs : List A) → length (sort before xs) ≡ length xs
length-sort before [] = refl
length-sort before (x ∷ xs) =
    length-insert before x (sort before xs) ∙ ap suc (length-sort before xs)

length-ids : (rule : List Part) → length (ids rule) ≡ length rule
length-ids [] = refl
length-ids (p ∷ ps) = ap suc (length-ids ps)

total-length : (rule : List Part) → 0 < total rule → 0 < length rule
total-length [] h = h
total-length (p ∷ ps) h = omega arith

refused :
    {A : Type 0} (ok : Bool) (o : Option A)
    → ok ≡ false
    → (a : A) → ¬ ((if ok then o else none) ≡ some a)
refused true o h a e = cc
refused false o h a e = cc

accepted :
    {A : Type 0} (ok : Bool) (o : Option A)
    → ok ≡ true
    → (a : A) → (if ok then o else none) ≡ some a
    → o ≡ some a
accepted true o h a e = e
accepted false o h a e = cc

near :
    (before after floor : ℕ)
    → before ≡ floor
    → before ≤ after
    → after ≤ before + 1
    → (after ≡ floor) ⊎ (after ≡ floor + 1)
near before after floor e low high = ground (arith, e)

-- No party stands twice in the rule, whose parties are the keys of an object.
abbrev pub Distinct : List Part → Type 0
Distinct rule = (id : Text) → times id (ids rule) ≤ 1

times-Mem : (p : Part) (rule : List Part) → Mem p rule → 1 ≤ times p.id (ids rule)
times-Mem p [] m = absurd m
times-Mem p (q ∷ rest) (inl e) = rw (sym e) (ground (arith, text_eq_refl p.id))
times-Mem p (q ∷ rest) (inr m) = omega (arith, times-Mem p rest m)

floors-cents :
    (amount : ℕ) (rule : List Part) (p : Part)
    → times p.id (ids rule) ≤ 1
    → Mem p rule
    → cents_of p.id (floors amount rule) ≡ amount * p.basis_points / 10000
unfolding floors
floors-cents amount [] p h m = absurd m
floors-cents amount (q ∷ rest) p h (inl e) = rw (sym e, text_eq_refl p.id) refl
floors-cents amount (q ∷ rest) p h (inr m) =
    ground (arith, times-Mem p rest m, floors-cents amount rest p)

module _ (before : ℕ → List Part → Text → Text → Bool) where
  by_remainder-Covers :
      (amount : ℕ) (rule : List Part)
      → Covers (by_remainder before amount rule) (floors amount rule)
  by_remainder-Covers amount rule id =
      count-sort (before amount rule) (text_eq id) (ids rule)
      ∙ ap (times id) (sym (floors-ids amount rule))

  by_remainder-length :
      (amount : ℕ) (rule : List Part) → length (by_remainder before amount rule) ≡ length rule
  by_remainder-length amount rule = length-sort (before amount rule) (ids rule) ∙ length-ids rule

  -- Whatever the order of the remainders, a division returns, instead of an error, exactly when the
  -- basis points total 10000; the shares then sum to the amount, and belong to the parties of the
  -- rule in its order.
  pub allocate_iff :
      (amount : ℕ) (rule : List Part)
      → (total rule ≡ 10000) ↔ (
          (result : List Share) × (allocate before amount rule ≡ some result)
          × (assigned result ≡ amount)
          × (share_ids result ≡ ids rule))
  unfolding allocate
  allocate_iff amount rule = elim (Bool-cases (total rule == 10000)) [
    | inl ok ↦
        let exact = (==_iff (total rule) 10000).0 ok in
        let (low, high) = floors-bounds amount rule in
        let (result, e, sum, same) =
          distribute-assigned (amount - assigned (floors amount rule)) 0
            (by_remainder before amount rule) (floors amount rule)
            (omega (arith, by_remainder-length amount rule, total-length rule (omega arith)))
            (by_remainder-Covers amount rule) in
        let low' : 10000 * assigned (floors amount rule) ≤ amount * 10000 =
          subst (λ t. 10000 * assigned (floors amount rule) ≤ amount * t) exact low in
        (λ _. rw ok (result, e, omega arith, same ∙ floors-ids amount rule), λ _. exact)
    | inr wrong ↦ (
      λ e. absurd (ground (arith, e)),
      λ h. absurd (refused (total rule == 10000) _ wrong h.0 h.1),
    )
  ]

  -- The share of each party of a rule that names no party twice is its exact part rounded down to
  -- the cent, or one cent more.
  pub allocate-IsNear :
      (amount : ℕ) (rule : List Part) (result : List Share) (p : Part)
      → Distinct rule
      → Mem p rule
      → allocate before amount rule ≡ some result
      → (cents_of p.id result ≡ amount * p.basis_points / 10000)
        ⊎ (cents_of p.id result ≡ amount * p.basis_points / 10000 + 1)
  unfolding allocate
  allocate-IsNear amount rule result p d m e = elim (Bool-cases (total rule == 10000)) [
    | inl ok ↦
        let (low, high) = floors-bounds amount rule in
        let high' =
          subst (λ t. amount * t ≤ 10000 * assigned (floors amount rule) + 9999 * length rule)
            ((==_iff (total rule) 10000).0 ok) high in
        let gains =
          distribute-Gains p.id (amount - assigned (floors amount rule)) 0
            (by_remainder before amount rule) (floors amount rule) result
            (omega (arith, by_remainder-length amount rule)) (by_remainder-Covers amount rule)
            (accepted (total rule == 10000) _ ok result e) in
        let once : times p.id (drop 0 (by_remainder before amount rule)) ≤ 1 =
          omega (arith, count-sort (before amount rule) (text_eq p.id) (ids rule), d p.id) in
        near (cents_of p.id (floors amount rule)) (cents_of p.id result)
          (amount * p.basis_points / 10000) (floors-cents amount rule p (d p.id) m) gains.0
          (omega (arith, gains.1, once))
    | inr wrong ↦ absurd (refused (total rule == 10000) _ wrong result e)
  ]
