-- ===== src/Guardian/Turns.antt =====
-- The turns of pending.ts's group call.
use olive_branch.Prelude.{
  ℕ, zero, suc, ◌+◌, ◌≤◌, ◌<◌, String, ◌≡◌, refl, ◌∙◌, ap, Bool, none, some, some-injective, List,
  [], ◌∷◌, length, get_elem?, map, count, sort, Sorted, sort-Sorted, count-sort, IsOrder,
  if◌then◌else◌, str_eq, eq_iff, Bool-cases, inl, inr, arith,
}
use olive_branch.Guardian.Group.{
  GroupCall, Child, younger, child_id, solo_order, after_skip, place_after, next_place, next_solo,
}

-- How often an id stands in the order.
abbrev pub times : String → List String → ℕ
times id order = count (λ x. str_eq x id) order

-- The call after this many presses of the button for the next turn.
unfoldable pub turn_after : ℕ → GroupCall → List String → GroupCall
turn_after zero call order = call
turn_after (suc n) call order = next_solo (turn_after n call order) order

times-pos :
    (id : String) (k : ℕ) (order : List String) → get_elem? order k ≡ some id → 1 ≤ times id order
times-pos id k [] h = absurd (cc)
times-pos id zero (x ∷ xs) h = ground (arith, (eq_iff x id).1 (some-injective _ _ h))
times-pos id (suc k) (x ∷ xs) h = ground (arith, times-pos id k xs h)

place_after-get_elem? :
    (id : String) (k : ℕ) (order : List String)
    → get_elem? order k ≡ some id
    → times id order ≤ 1
    → place_after id order ≡ suc k
place_after-get_elem? id k [] h once = absurd (cc)
place_after-get_elem? id zero (x ∷ xs) h once = rw ((eq_iff x id).1 (some-injective _ _ h)) refl
place_after-get_elem? id (suc k) (x ∷ xs) h once = elim (Bool-cases (str_eq x id)) [
  | inl same ↦ absurd (ground (arith, times-pos id k xs h))
  | inr other ↦ rw other (ap after_skip (place_after-get_elem? id k xs h (ground arith)))
]

get_elem?-in :
    {A : Type 0} (k : ℕ) (xs : List A) → k < length xs → (x : A) × (get_elem? xs k ≡ some x)
get_elem?-in k [] h = absurd (omega arith)
get_elem?-in zero (x ∷ xs) h = (x, refl)
get_elem?-in (suc k) (x ∷ xs) h = get_elem?-in k xs (omega arith)

turn-step :
    (call : GroupCall) (order : List String) (place : ℕ)
    → next_place call.solo_turn order ≡ place
    → (next_solo call order).solo_turn ≡ get_elem? order place
unfolding next_solo
turn-step call order place e = ap (get_elem? order) e

turn_after-get_elem? :
    (call : GroupCall) (order : List String) (k : ℕ)
    → call.solo_turn ≡ none
    → ((id : String) → times id order ≤ 1)
    → k ≤ length order
    → (turn_after (suc k) call order).solo_turn ≡ get_elem? order k
unfolding turn_after
turn_after-get_elem? call order zero start once h =
    turn-step call order 0 (ap (λ t. next_place t order) start)
turn_after-get_elem? call order (suc k) start once h =
    let (id, at) = get_elem?-in k order (omega arith) in
    turn-step (turn_after (suc k) call order) order (suc k) (
      ap (λ t. next_place t order) (turn_after-get_elem? call order k start once (omega arith) ∙ at)
      ∙ place_after-get_elem? id k order at (once id))

younger-IsOrder : IsOrder younger
younger-IsOrder = record {
  asymmetric = λ a b h. ground arith;
  cotransitive = λ a b c h k. ground arith;
}

get_elem?-map :
    (children : List Child) (k : ℕ) (c : Child)
    → get_elem? children k ≡ some c
    → get_elem? (map child_id children) k ≡ some c.id
get_elem?-map [] k c h = absurd (cc)
get_elem?-map (x ∷ xs) zero c h = ap (λ (z : Child). some z.id) (some-injective _ _ h)
get_elem?-map (x ∷ xs) (suc k) c h = get_elem?-map xs k c h

get_elem?-lt :
    (children : List Child) (k : ℕ) (c : Child)
    → get_elem? children k ≡ some c
    → k < length children
get_elem?-lt [] k c h = absurd (cc)
get_elem?-lt (x ∷ xs) zero c h = omega arith
get_elem?-lt (x ∷ xs) (suc k) c h = omega (arith, get_elem?-lt xs k c h)

get_elem?-past :
    (children : List Child) → get_elem? (map child_id children) (length children) ≡ none
get_elem?-past [] = refl
get_elem?-past (x ∷ xs) = get_elem?-past xs

count-map :
    (p : String → Bool) (children : List Child)
    → count p (map child_id children) ≡ count (λ (c : Child). p c.id) children
count-map p [] = refl
count-map p (x ∷ xs) = ap (λ n. (if p x.id then 1 else 0) + n) (count-map p xs)

length-map : (children : List Child) → length (map child_id children) ≡ length children
length-map [] = refl
length-map (x ∷ xs) = ap suc (length-map xs)

-- From a call in which nobody has a turn yet, with children of different ids, the presses of the button
-- give every child one turn, in an order in which nobody comes before someone younger, where an unknown
-- age counts as 99; the press after the last turn ends the turns.
pub solo_turns-IsFair :
    (call : GroupCall) (children : List Child)
    → call.solo_turn ≡ none
    → ((id : String) → count (λ (c : Child). str_eq c.id id) children ≤ 1)
    → (ordered : List Child) × Sorted younger ordered
      × ((p : Child → Bool) → count p ordered ≡ count p children)
      × ((k : ℕ) (c : Child)
          → get_elem? ordered k ≡ some c
          → (turn_after (suc k) call (solo_order children)).solo_turn ≡ some c.id)
      × ((turn_after (suc (length ordered)) call (solo_order children)).solo_turn ≡ none)
unfolding solo_order
solo_turns-IsFair call children start once =
    let ordered = sort younger children in
    let distinct : (id : String) → times id (map child_id ordered) ≤ 1 = λ id. omega (
      arith,
      count-map (λ x. str_eq x id) ordered,
      count-sort younger (λ (c : Child). str_eq c.id id) children,
      once id,
    ) in
    let turn = λ (k : ℕ) (h : k ≤ length (map child_id ordered)).
      turn_after-get_elem? call (map child_id ordered) k start distinct h in
    (
      ordered,
      sort-Sorted younger younger-IsOrder children,
      λ p. count-sort younger p children,
      λ k c h.
          turn k (let lt = get_elem?-lt ordered k c h in omega (arith, length-map ordered))
          ∙ get_elem?-map ordered k c h,
      turn (length ordered) (omega (arith, length-map ordered)) ∙ get_elem?-past ordered,
    )
