-- ===== src/Offline/Keeping.antt =====
-- What the outbox of offline.ts promises: nothing that is queued is lost before it is sent, and
-- what was made first is tried first.
use olive_branch.Prelude.{
  ℕ, zero, suc, ◌*◌, ◌≤◌, ◌<◌, ◌≡◌, refl, sym, subst, ◌≢◌, ◌⊎◌, inl, inr, Bool, true, false, none,
  some, List, [], ◌∷◌, ◌++◌, String, leb, filterb, if◌then◌else◌, first_sorted, str_eq, Any, All,
  Mem, Mem-filterb, non_empty, first_sorted-Earliest, IsOrder, arith, leb→le, Bool-cases,
  filterb-pos, filterb-neg,
}
use olive_branch.Offline.Outbox.{
  OutboxKind, ping, OutboxItem, NewItem, new_item, not_queueable, power, backoff_ms, enqueue,
  may_try, failed, record_failure, is_other, sent, next_to_send, made_before,
}

power_pos : (n : ℕ) → 1 ≤ power 2 n
power_pos zero = omega arith
power_pos (suc n) = omega (arith, power_pos n)

power_big : (n : ℕ) → 9 ≤ n → 512 ≤ power 2 n
power_big zero h = absurd (omega arith)
power_big (suc n) h = elim (Bool-cases (leb 9 n)) [
  | inl e ↦ let big = power_big n (leb→le 9 n e) in omega arith
  | inr e ↦ let eight = subst (λ k. power 2 k ≡ 256) (last n h e) refl in omega arith
]
  where
    last : (k : ℕ) → 9 ≤ suc k → leb 9 k ≡ false → 8 ≡ k
    last k h e = ground arith

-- The wait never shrinks, at most doubles from one attempt to the next, is never above six hours,
-- and is six hours from the ninth attempt on.
pub backoff_ms-IsBounded :
    (n : ℕ)
    → (backoff_ms n ≤ backoff_ms (suc n))
      × (backoff_ms (suc n) ≤ 2 * backoff_ms n)
      × (backoff_ms n ≤ 21600000)
      × (9 ≤ n → backoff_ms n ≡ 21600000)
unfolding backoff_ms
backoff_ms-IsBounded n =
    let p = power_pos n in
    (omega arith, omega arith, omega arith, λ h. omega (arith, power_big n h))

pub data OutboxEvent (P : Type 0) : Type 0 where
  queued : NewItem P → OutboxEvent P
  failure : (id error : String) → OutboxEvent P
  delivery : (id : String) → OutboxEvent P

module _ {P : Type 0} where
  unfoldable pub outbox_step : List (OutboxItem P) → OutboxEvent P → List (OutboxItem P)
  outbox_step outbox (queued i) = (enqueue outbox i).outbox
  outbox_step outbox (failure id error) = record_failure outbox id error
  outbox_step outbox (delivery id) = sent outbox id

  unfoldable pub outbox_run : List (OutboxItem P) → List (OutboxEvent P) → List (OutboxItem P)
  outbox_run outbox [] = outbox
  outbox_run outbox (e ∷ es) = outbox_run (outbox_step outbox e) es

  -- The item is the queued one, whatever was tried since.
  pub record IsMade (i : NewItem P) (j : OutboxItem P) : Type 0 where
    pub id : j.id ≡ i.id
    pub kind : j.kind ≡ i.kind
    pub created_at : j.created_at ≡ i.created_at
    pub payload : j.payload ≡ i.payload

  -- Not the delivery of the item with this id.
  abbrev pub IsNotDelivery : String → OutboxEvent P → Type 0
  IsNotDelivery id (delivery other) = str_eq id other ≡ false
  IsNotDelivery id _ = Unit

  Any-append-left :
      (Q : OutboxItem P → Type 0) (xs ys : List (OutboxItem P)) → Any Q xs → Any Q (xs ++ ys)
  Any-append-left Q [] ys h = absurd h
  Any-append-left Q (x ∷ xs) ys (inl h) = inl h
  Any-append-left Q (x ∷ xs) ys (inr h) = inr (Any-append-left Q xs ys h)

  Any-append-last :
      (Q : OutboxItem P → Type 0) (xs : List (OutboxItem P)) (y : OutboxItem P)
      → Q y
      → Any Q (xs ++ y ∷ [])
  Any-append-last Q [] y h = inl h
  Any-append-last Q (x ∷ xs) y h = inr (Any-append-last Q xs y h)

  enqueue-keeps :
      (i n : NewItem P) (outbox : List (OutboxItem P))
      → Any (IsMade i) outbox
      → Any (IsMade i) (enqueue outbox n).outbox
  unfolding enqueue
  enqueue-keeps i n outbox h = elim (Bool-cases (not_queueable n.kind)) [
    | inl e ↦ rw e h
    | inr e ↦ rw e (Any-append-left (IsMade i) outbox (new_item n ∷ []) h)
  ]

  failed-IsMade :
      (i : NewItem P) (id error : String) (j : OutboxItem P)
      → IsMade i j
      → IsMade i (failed id error j)
  failed-IsMade i id error j h = elim (Bool-cases (str_eq j.id id)) [
    | inl e ↦
        rw e (record { id = h.id; kind = h.kind; created_at = h.created_at; payload = h.payload })
    | inr e ↦ rw e h
  ]

  record_failure-keeps :
      (i : NewItem P) (id error : String) (outbox : List (OutboxItem P))
      → Any (IsMade i) outbox
      → Any (IsMade i) (record_failure outbox id error)
  unfolding record_failure
  record_failure-keeps i id error [] h = h
  record_failure-keeps i id error (j ∷ js) (inl h) = inl (failed-IsMade i id error j h)
  record_failure-keeps i id error (j ∷ js) (inr h) = inr (record_failure-keeps i id error js h)

  sent-keeps :
      (i : NewItem P) (id : String) (outbox : List (OutboxItem P))
      → str_eq i.id id ≡ false
      → Any (IsMade i) outbox
      → Any (IsMade i) (sent outbox id)
  unfolding sent
  sent-keeps i id [] d h = h
  sent-keeps i id (j ∷ js) d (inl h) =
      let other =
        subst (λ k. (if str_eq k id then false else true) ≡ true) (sym h.id) (rw d refl) in
      subst (Any (IsMade i)) (sym (filterb-pos (is_other id) j js other)) (inl h)
  sent-keeps i id (j ∷ js) d (inr h) = elim (Bool-cases (is_other id j)) [
    | inl e ↦
        subst (Any (IsMade i)) (sym (filterb-pos (is_other id) j js e))
          (inr (sent-keeps i id js d h))
    | inr e ↦
        subst (Any (IsMade i)) (sym (filterb-neg (is_other id) j js e)) (sent-keeps i id js d h)
  ]

  run-keeps :
      (i : NewItem P) (es : List (OutboxEvent P)) (outbox : List (OutboxItem P))
      → All (IsNotDelivery i.id) es
      → Any (IsMade i) outbox
      → Any (IsMade i) (outbox_run outbox es)
  unfolding outbox_run outbox_step
  run-keeps i [] outbox d h = h
  run-keeps i (queued n ∷ es) outbox (_, d) h =
      run-keeps i es (enqueue outbox n).outbox d (enqueue-keeps i n outbox h)
  run-keeps i (failure id error ∷ es) outbox (_, d) h =
      run-keeps i es (record_failure outbox id error) d (record_failure-keeps i id error outbox h)
  run-keeps i (delivery id ∷ es) outbox (n, d) h =
      run-keeps i es (sent outbox id) d (sent-keeps i id outbox n h)

  -- What a child queued is not lost: an item of any kind but a ping, once enqueued, is in the outbox
  -- with its kind, instant and payload after any later events, however often it failed, as long as
  -- its id is not reported as sent.
  pub enqueue-IsKept :
      (outbox : List (OutboxItem P)) (i : NewItem P) (es : List (OutboxEvent P))
      → i.kind ≢ ping
      → All (IsNotDelivery i.id) es
      → ((enqueue outbox i).dropped ≡ false)
        × Any (IsMade i) (outbox_run (enqueue outbox i).outbox es)
  enqueue-IsKept outbox i es k d =
      let kept = queueable i.kind k in
      (
        unfold enqueue in rw kept refl,
        run-keeps i es (enqueue outbox i).outbox d
            (unfold enqueue in rw kept (Any-append-last (IsMade i) outbox (new_item i) made)),
      )
    where
      queueable : (k : OutboxKind) → k ≢ ping → not_queueable k ≡ false
      queueable k h = ground arith

      made : IsMade i (new_item i)
      made = record { id = refl; kind = refl; created_at = refl; payload = refl }

  stuck-empty :
      (outbox : List (OutboxItem P))
      → non_empty (filterb may_try outbox) ≡ false
      → All (λ i. 8 ≤ i.attempts) outbox
  stuck-empty [] h = tt
  stuck-empty (i ∷ outbox) h = elim (Bool-cases (may_try i)) [
    | inl e ↦ absurd (occupied i outbox e h)
    | inr e ↦ (
      ground arith,
      stuck-empty outbox (subst (λ l. non_empty l ≡ false) (filterb-neg may_try i outbox e) h),
    )
  ]
    where
      occupied :
          (i : OutboxItem P) (l : List (OutboxItem P))
          → may_try i ≡ true
          → ¬ (non_empty (filterb may_try (i ∷ l)) ≡ false)
      occupied i l e h =
          let f = subst (λ l. non_empty l ≡ false) (filterb-pos may_try i l e) h in cc

  -- Oldest first, and no endless retry: if nothing is chosen, then every item failed eight times or
  -- more; a chosen item is in the outbox, failed fewer than eight times, and no such item was made
  -- before it.
  pub next_to_send-IsOldest :
      (before : String → String → Bool)
      → IsOrder before
      → (outbox : List (OutboxItem P))
      → ((next_to_send before outbox ≡ none) × All (λ i. 8 ≤ i.attempts) outbox)
        ⊎ ((i : OutboxItem P) × (next_to_send before outbox ≡ some i)
            × Mem i outbox
            × (i.attempts < 8)
            × ((j : OutboxItem P)
                → Mem j outbox
                → j.attempts < 8
                → before j.created_at i.created_at ≡ false))
  unfolding next_to_send
  next_to_send-IsOldest before o outbox = elim (Bool-cases (non_empty (filterb may_try outbox))) [
    | inl e ↦
        let (i, found, best) =
          first_sorted-Earliest (made_before before) order (filterb may_try outbox) e in
        let (member, tries) = (Mem-filterb may_try i outbox).0 best.member in
        inr (
          i,
          found,
          member,
          ground arith,
          λ j m t. best.nothing_before j ((Mem-filterb may_try j outbox).1 (m, ground arith)),
        )
    | inr e ↦ inl (nothing (filterb may_try outbox) e, stuck-empty outbox e)
  ]
    where
      order : IsOrder (made_before {P = P} before)
      order = record {
        asymmetric = λ a b. o.asymmetric a.created_at b.created_at;
        cotransitive = λ a b c. o.cotransitive a.created_at b.created_at c.created_at;
      }

      nothing :
          (l : List (OutboxItem P))
          → non_empty l ≡ false
          → first_sorted (made_before before) l ≡ none
      nothing [] h = refl
      nothing (i ∷ l) h = absurd (cc)
