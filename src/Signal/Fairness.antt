-- ===== src/Signal/Fairness.antt =====
-- Fairness of `prioritise` of signal.ts: no seniority, no identity, only absence, calls and time.
use olive_branch.Prelude.{
  suc, ◌≡◌, refl, sym, ◌∙◌, Bool, true, false, ◌&&◌, ◌≤◌, some, List, [], ◌∷◌, String, ltb, length,
  filterb, if◌then◌else◌, arith, Bool-cases, filterb-pos, filterb-neg, inl, inr, IsOrder, ap, subst,
  &&-split, Mem, Mem-filterb, non_empty, Earliest, first_sorted-Earliest,
}
use olive_branch.Signal.Catalogue.{application_total}
use olive_branch.Signal.Priority.{
  Pending, PriorityReason, is_safety_critical, is_absent, is_in_call, comes_before, by_call,
  by_absence, prioritise, in_call,
}

-- Those that pass the test, or all if none does.
prefer : (Pending → Bool) → List Pending → List Pending
prefer p xs = if non_empty (filterb p xs) then filterb p xs else xs

empty-none : (q : Pending) (xs : List Pending) → non_empty xs ≡ false → Mem q xs → ⊥
empty-none q [] e h = h
empty-none q (x ∷ xs) e h = cc

prefer-some :
    (p : Pending → Bool) (xs : List Pending)
    → non_empty (filterb p xs) ≡ true
    → prefer p xs ≡ filterb p xs
unfolding prefer
prefer-some p xs e = rw e refl

prefer-all :
    (p : Pending → Bool) (xs : List Pending) → non_empty (filterb p xs) ≡ false → prefer p xs ≡ xs
unfolding prefer
prefer-all p xs e = rw e refl

-- What `prefer` chooses was in the list; a member of the list that passes the test makes the chosen
-- one pass it, and one that is like the chosen one remains a candidate.
record Prefers (p : Pending → Bool) (xs : List Pending) (w : Pending) : Type 0 where
  member : Mem w xs
  best : (q : Pending) → Mem q xs → p q ≡ true → p w ≡ true
  keeps : (q : Pending) → Mem q xs → p q ≡ p w → Mem q (prefer p xs)

prefer-Prefers :
    (p : Pending → Bool) (xs : List Pending) (w : Pending) → Mem w (prefer p xs) → Prefers p xs w
prefer-Prefers p xs w h = elim (Bool-cases (non_empty (filterb p xs))) [
  | inl e ↦
      let (m, t) = (Mem-filterb p w xs).0 (subst (Mem w) (prefer-some p xs e) h) in
      record {
        member = m;
        best = λ q _ _. t;
        keeps = λ q mq same.
            subst (Mem q) (sym (prefer-some p xs e)) ((Mem-filterb p q xs).1 (mq, same ∙ t));
      }
  | inr e ↦ record {
    member = subst (Mem w) (prefer-all p xs e) h;
    best = λ q mq t. absurd (empty-none q (filterb p xs) e ((Mem-filterb p q xs).1 (mq, t)));
    keeps = λ q mq same. subst (Mem q) (sym (prefer-all p xs e)) mq;
  }
]

length-filterb : (p : Pending → Bool) (xs : List Pending) → length (filterb p xs) ≤ length xs
length-filterb p [] = omega arith
length-filterb p (x ∷ xs) = elim (Bool-cases (p x)) [
  | inl e ↦ rw (filterb-pos p x xs e) (omega (arith, length-filterb p xs))
  | inr e ↦ rw (filterb-neg p x xs e) (omega (arith, length-filterb p xs))
]

filterb-full :
    (p : Pending → Bool) (xs : List Pending)
    → ltb (length (filterb p xs)) (length xs) ≡ false
    → filterb p xs ≡ xs
filterb-full p [] h = refl
filterb-full p (x ∷ xs) h = elim (Bool-cases (p x)) [
  | inl e ↦ filterb-pos p x xs e ∙ ap (λ l. x ∷ l) (filterb-full p xs (shorter e))
  | inr e ↦ absurd (short e)
]
  where
    shorter : p x ≡ true → ltb (length (filterb p xs)) (length xs) ≡ false
    shorter e =
        let k = subst (λ l. ltb (length l) (suc (length xs)) ≡ false) (filterb-pos p x xs e) h in
        ground arith

    short : p x ≡ false → ⊥
    short e =
        let k = subst (λ l. ltb (length l) (suc (length xs)) ≡ false) (filterb-neg p x xs e) h in
        let l = length-filterb p xs in ground arith

never_critical : (p : Pending) → is_safety_critical p ≡ false
unfolding is_safety_critical
never_critical p =
    let (a, found, _, _, harmless) = application_total p.kind in
    rw (found, is_safety_critical) harmless

no_critical : (xs : List Pending) → filterb is_safety_critical xs ≡ []
no_critical [] = refl
no_critical (x ∷ xs) = filterb-neg is_safety_critical x xs (never_critical x) ∙ no_critical xs

prefer-non_empty :
    (p : Pending → Bool) (xs : List Pending) → non_empty xs ≡ true → non_empty (prefer p xs) ≡ true
prefer-non_empty p xs h = elim (Bool-cases (non_empty (filterb p xs))) [
  | inl e ↦ rw (prefer-some p xs e) e
  | inr e ↦ rw (prefer-all p xs e) h
]

-- Where the source does not narrow the pool to the calls, `prefer` does not either.
not_narrowed :
    (p : Pending → Bool) (xs : List Pending)
    → (non_empty (filterb p xs) && ltb (length (filterb p xs)) (length xs)) ≡ false
    → prefer p xs ≡ xs
not_narrowed p xs h = elim (Bool-cases (non_empty (filterb p xs))) [
  | inl e ↦ prefer-some p xs e ∙ filterb-full p xs (ground arith)
  | inr e ↦ prefer-all p xs e
]

module _ (before : String → String → Bool) (o : IsOrder before) where
  pending_order : IsOrder (comes_before before)
  pending_order = record {
    asymmetric = λ a b. o.asymmetric a.at b.at;
    cotransitive = λ a b c. o.cotransitive a.at b.at c.at;
  }

  by_call-Earliest :
      (pool : List Pending) (r : PriorityReason)
      → non_empty pool ≡ true
      → (w : Pending) × (s : PriorityReason) × (by_call before pool r
          ≡ some (record { winner = w; reason = s }))
        × Earliest (comes_before before) (prefer is_in_call pool) w
  unfolding by_call
  by_call-Earliest pool r h =
      let calling = filterb is_in_call pool in
      elim (Bool-cases (non_empty calling && ltb (length calling) (length pool))) [
        | inl e ↦
            let some_call = (&&-split (non_empty calling) _ e).0 in
            let (w, found, best) =
              first_sorted-Earliest (comes_before before) pending_order calling some_call in
            (
              w,
              in_call,
              rw (e, found) refl,
              subst (λ l. Earliest (comes_before before) l w)
                  (sym (prefer-some is_in_call pool some_call)) best,
            )
        | inr e ↦
            let (w, found, best) =
              first_sorted-Earliest (comes_before before) pending_order pool h in
            (
              w,
              r,
              rw (e, found) refl,
              subst (λ l. Earliest (comes_before before) l w) (sym (not_narrowed is_in_call pool e))
                  best,
            )
      ]

  by_absence-Earliest :
      (pending : List Pending)
      → non_empty pending ≡ true
      → (w : Pending) × (s : PriorityReason) × (by_absence before pending
          ≡ some (record { winner = w; reason = s }))
        × Earliest (comes_before before) (prefer is_in_call (prefer is_absent pending)) w
  unfolding by_absence prefer
  by_absence-Earliest pending h = by_call-Earliest _ _ (prefer-non_empty is_absent pending h)

  -- A signal that is fit to be shown: it is pending; an absent sender is passed over only for an
  -- absent one; a call is passed over only for a call, among senders that are alike in presence; and
  -- nothing that is alike in both came before it.
  pub record IsFair (pending : List Pending) (w : Pending) : Type 0 where
    pub member : Mem w pending
    pub absence : (q : Pending) → Mem q pending → is_absent q ≡ true → is_absent w ≡ true
    pub calls :
        (q : Pending)
        → Mem q pending
        → is_absent q ≡ is_absent w
        → q.in_call ≡ true
        → w.in_call ≡ true
    pub time :
        (q : Pending)
        → Mem q pending
        → is_absent q ≡ is_absent w
        → q.in_call ≡ w.in_call
        → before q.at w.at ≡ false

  -- If anything is pending, then `prioritise` chooses a signal, and a fair one, whoever sent it and
  -- whatever the order of the list.
  pub prioritise-IsFair :
      (pending : List Pending)
      → non_empty pending ≡ true
      → (w : Pending) × (s : PriorityReason) × (prioritise before pending
          ≡ some (record { winner = w; reason = s }))
        × IsFair pending w
  unfolding prioritise by_absence-Earliest
  prioritise-IsFair pending h =
      let (w, s, chosen, best) = by_absence-Earliest pending h in
      let inner = prefer-Prefers is_in_call (prefer is_absent pending) w best.member in
      let outer = prefer-Prefers is_absent pending w inner.member in
      (
        w,
        s,
        rw (no_critical pending, prioritise) chosen,
        record {
          member = outer.member;
          absence = outer.best;
          calls = λ q m alike call. inner.best q (outer.keeps q m alike) call;
          time =
              λ q m alike call. best.nothing_before q (inner.keeps q (outer.keeps q m alike) call);
        },
      )
