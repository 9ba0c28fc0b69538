-- ===== src/Ledger/Division.antt =====
-- The loop of ledger.ts's `allocate` that hands out the residue.
use native.Mathlib.Nat.{mod-eq_of_lt, mod-lt}
use olive_branch.Prelude.{
  ℕ, zero, suc, ◌+◌, ◌%◌, ◌≤◌, ◌<◌, ◌≡◌, refl, sym, ◌∙◌, ap, subst, inl, inr, false, some,
  some-injective, List, [], ◌∷◌, if◌then◌else◌, length, get_elem?, count, Bool-cases, arith,
}
use olive_branch.Ledger.Framing.{Text}
use olive_branch.Ledger.Chain.{text_eq}
use olive_branch.Ledger.Tamper.{text_eq_refl, text_eq-eq}
use olive_branch.Ledger.Shares.{Share, assigned, add_cent, distribute}

abbrev pub share_ids : List Share → List Text
share_ids [] = []
share_ids (s ∷ ss) = s.id ∷ share_ids ss

-- The cents of a party, 0 for one that has no share.
abbrev pub cents_of : Text → List Share → ℕ
cents_of id [] = 0
cents_of id (s ∷ ss) = let rest = cents_of id ss in if text_eq id s.id then s.cents else rest

-- How often a party stands in the list.
abbrev pub times : Text → List Text → ℕ
times id xs = count (text_eq id) xs

add_cent-ids : (id : Text) (out : List Share) → share_ids (add_cent id out) ≡ share_ids out
unfolding add_cent
add_cent-ids id [] = refl
add_cent-ids id (s ∷ ss) = ground (arith, add_cent-ids id ss)

add_cent-assigned :
    (id : Text) (out : List Share)
    → 1 ≤ times id (share_ids out)
    → assigned (add_cent id out) ≡ suc (assigned out)
unfolding add_cent
add_cent-assigned id [] h = absurd (omega arith)
add_cent-assigned id (s ∷ ss) h = ground (arith, add_cent-assigned id ss)

add_cent-same :
    (id : Text) (out : List Share)
    → 1 ≤ times id (share_ids out)
    → cents_of id (add_cent id out) ≡ suc (cents_of id out)
unfolding add_cent
add_cent-same id [] h = absurd (omega arith)
add_cent-same id (s ∷ ss) h = ground (arith, add_cent-same id ss)

add_cent-other :
    (id other : Text) (out : List Share)
    → text_eq id other ≡ false
    → cents_of id (add_cent other out) ≡ cents_of id out
unfolding add_cent
add_cent-other id other [] h = refl
add_cent-other id other (s ∷ ss) h = elim (Bool-cases (text_eq other s.id)) [
  | inl hit ↦
      let miss : text_eq id s.id ≡ false =
        subst (λ x. text_eq id x ≡ false) (text_eq-eq other s.id hit) h in
      rw (hit, miss) refl
  | inr miss ↦ rw miss (ground (arith, add_cent-other id other ss h))
]

count-pos : (id : Text) (i : ℕ) (xs : List Text) → get_elem? xs i ≡ some id → 1 ≤ times id xs
count-pos id i [] h = absurd (cc)
count-pos id zero (x ∷ xs) h = ground (arith, text_eq_refl id, some-injective _ _ h)
count-pos id (suc i) (x ∷ xs) h = ground (arith, count-pos id i xs h)

get_elem?-some :
    {A : Type 0} (i : ℕ) (xs : List A) → i < length xs → (x : A) × (get_elem? xs i ≡ some x)
get_elem?-some i [] h = absurd (omega arith)
get_elem?-some zero (x ∷ xs) h = (x, refl)
get_elem?-some (suc i) (x ∷ xs) h = get_elem?-some i xs (omega arith)

-- The parties of the order and of the shares are the same.
abbrev pub Covers : List Text → List Share → Type 0
Covers order out = (id : Text) → times id order ≡ times id (share_ids out)

distribute-step :
    (r i : ℕ) (order : List Text) (out : List Share) (id : Text)
    → get_elem? order i ≡ some id
    → distribute (suc r) i order out ≡ distribute r ((i + 1) % length order) order (add_cent id out)
unfolding distribute
distribute-step r i order out id h = rw (h, distribute) refl

-- The loop ends, and hands out all of the residue.
pub distribute-assigned :
    (r i : ℕ) (order : List Text) (out : List Share)
    → i < length order
    → Covers order out
    → (result : List Share) × (distribute r i order out ≡ some result)
      × (assigned result ≡ r + assigned out)
      × (share_ids result ≡ share_ids out)
distribute-assigned zero i order out h c = unfold distribute in (out, refl, omega arith, refl)
distribute-assigned (suc r) i order out h c =
    let (id, at) = get_elem?-some i order h in
    let kept = add_cent-ids id out in
    let (result, e, sum, same) =
      distribute-assigned r ((i + 1) % length order) order (add_cent id out)
        (mod-lt (i + 1) (omega arith)) (λ x. c x ∙ ap (times x) (sym kept)) in
    let one = add_cent-assigned id out (omega (arith, c id, count-pos id i order at)) in
    (result, distribute-step r i order out id at ∙ e, omega arith, same ∙ kept)

abbrev pub drop : {A : Type 0} → ℕ → List A → List A
drop zero xs = xs
drop (suc i) [] = []
drop (suc i) (x ∷ xs) = drop i xs

count-drop :
    (id x : Text) (i : ℕ) (xs : List Text)
    → get_elem? xs i ≡ some x
    → times id (drop i xs) ≡ (if text_eq id x then 1 else 0) + times id (drop (suc i) xs)
count-drop id x i [] h = absurd (cc)
count-drop id x zero (y ∷ ys) h = rw (some-injective _ _ h) refl
count-drop id x (suc i) (y ∷ ys) h = count-drop id x i ys h

-- The loop that does not pass the end of the order gives a party a cent at most as often as it
-- still stands ahead.
abbrev pub Gains : Text → List Share → List Share → ℕ → Type 0
Gains id out result n =
    (cents_of id out ≤ cents_of id result) × (cents_of id result ≤ cents_of id out + n)

add_cent-Gains :
    (id x : Text) (out : List Share)
    → 1 ≤ times x (share_ids out)
    → cents_of id (add_cent x out) ≡ cents_of id out + (if text_eq id x then 1 else 0)
add_cent-Gains id x out h = elim (Bool-cases (text_eq id x)) [
  | inl same ↦ rw same (
      subst (λ y. cents_of id (add_cent y out) ≡ cents_of id out + 1) (text_eq-eq id x same)
        (let h' : 1 ≤ times id (share_ids out) =
            subst (λ y. 1 ≤ times y (share_ids out)) (sym (text_eq-eq id x same)) h in
          omega (arith, add_cent-same id out h')))
  | inr other ↦ rw other (omega (arith, add_cent-other id x out other))
]

Gains-step :
    (id x : Text) (i : ℕ) (order : List Text) (out result : List Share)
    → get_elem? order i ≡ some x
    → 1 ≤ times x (share_ids out)
    → Gains id (add_cent x out) result (times id (drop (suc i) order))
    → Gains id out result (times id (drop i order))
Gains-step id x i order out result at h (low, high) =
    let cent = add_cent-Gains id x out h in
    let ahead = count-drop id x i order at in (omega arith, omega arith)

pub distribute-Gains :
    (id : Text) (r i : ℕ) (order : List Text) (out result : List Share)
    → i + r ≤ length order
    → Covers order out
    → distribute r i order out ≡ some result
    → Gains id out result (times id (drop i order))
distribute-Gains id zero i order out result h c e =
    unfold distribute in
    subst (λ z. Gains id out z (times id (drop i order))) (some-injective _ _ e)
      (omega arith, omega arith)
distribute-Gains id (suc zero) i order out result h c e =
    let (x, at) = get_elem?-some i order (omega arith) in
    let last : add_cent x out ≡ result =
      unfold distribute in some-injective _ _ (sym (distribute-step zero i order out x at) ∙ e) in
    Gains-step id x i order out result at (omega (arith, c x, count-pos x i order at)) (
      subst (λ z. Gains id (add_cent x out) z (times id (drop (suc i) order))) last
        (omega arith, omega arith))
distribute-Gains id (suc (suc r)) i order out result h c e =
    let (x, at) = get_elem?-some i order (omega arith) in
    let next : (i + 1) % length order ≡ suc i = mod-eq_of_lt (omega arith) ∙ omega arith in
    Gains-step id x i order out result at (omega (arith, c x, count-pos x i order at)) (
      distribute-Gains id (suc r) (suc i) order (add_cent x out) result (omega arith)
        (λ y. c y ∙ ap (times y) (sym (add_cent-ids x out)))
        (ap (λ j. distribute (suc r) j order (add_cent x out)) (sym next)
          ∙ sym (distribute-step (suc r) i order out x at)
          ∙ e))
