-- ===== src/ChildLock/Lockout.antt =====
-- How many wrong PINs lock.ts allows, and that the cooldown after them holds.
use olive_branch.Prelude.{
  ℕ, ◌+◌, ◌<◌, ◌≡◌, refl, false, some, List, [], ◌∷◌, ◌++◌, map, arith, All, length, true, ◌≤◌, ◌⊎◌,
  inl, inr, ap, ◌∙◌,
}
use olive_branch.ChildLock.Lock.{
  LockState, locked_out, child_home, guardian_escalation, cooldown_ms, max_pin_attempts,
  submit_child_pin, escalate, can_render, is_live, Event, exits, hides, enters_pin, escalates,
  breaks_glass, step, run,
}

-- A child PIN or an escalation, tried before `deadline`.
abbrev pub TriedBefore : ℕ → ℕ × Event → Type 0
TriedBefore deadline (now, enters_pin c) = now < deadline
TriedBefore deadline (now, escalates p b) = now < deadline
TriedBefore deadline _ = ⊥

abbrev pub wrong_pins : List ℕ → List (ℕ × Event)
wrong_pins = map (λ t. (t, enters_pin false))

pub run-append : (s : LockState) (es fs : List (ℕ × Event)) → run s (es ++ fs) ≡ run (run s es) fs
unfolding run
run-append s [] fs = refl
run-append s (e ∷ es) fs = run-append (step s e) es fs

abbrev IsLockedTill : ℕ → LockState → Type 0
IsLockedTill deadline s = (s.surface ≡ locked_out) × (s.cooldown_until ≡ some deadline)

step-IsLockedTill :
    (s : LockState) (deadline : ℕ) (e : ℕ × Event)
    → TriedBefore deadline e
    → IsLockedTill deadline s
    → IsLockedTill deadline (step s e)
unfolding step submit_child_pin escalate
step-IsLockedTill s deadline (now, enters_pin c) h l = ground arith
step-IsLockedTill s deadline (now, escalates p b) h l = ground arith
step-IsLockedTill s deadline (now, exits) h l = absurd h
step-IsLockedTill s deadline (now, hides) h l = absurd h
step-IsLockedTill s deadline (now, breaks_glass) h l = absurd h

run-IsLockedTill :
    (s : LockState) (deadline : ℕ) (trace : List (ℕ × Event))
    → All (TriedBefore deadline) trace
    → IsLockedTill deadline s
    → IsLockedTill deadline (run s trace)
unfolding run
run-IsLockedTill s deadline [] h l = l
run-IsLockedTill s deadline (e ∷ es) (p, h) l =
    run-IsLockedTill (step s e) deadline es h (step-IsLockedTill s deadline e p l)

-- No cooldown is running at a moment: there is none, or its end has come.
abbrev pub IsFree : LockState → ℕ → Type 0
IsFree s t = is_live s.cooldown_until t ≡ false

wrong_pin :
    (s : LockState) (t : ℕ)
    → IsFree s t
    → s.failed_attempts + 1 < max_pin_attempts
    → ((step s (t, enters_pin false)).cooldown_until ≡ s.cooldown_until)
      × ((step s (t, enters_pin false)).failed_attempts ≡ s.failed_attempts + 1)
unfolding step submit_child_pin
wrong_pin s t c h = ground arith

last_wrong_pin :
    (s : LockState) (t : ℕ)
    → IsFree s t
    → max_pin_attempts ≤ s.failed_attempts + 1
    → IsLockedTill (t + cooldown_ms) (step s (t, enters_pin false))
unfolding step submit_child_pin
last_wrong_pin s t c h = ground arith

-- The attempt after these is the fifth, those that were counted before included; or at least five were
-- counted before, and it is the first.
abbrev pub IsFifth : LockState → List ℕ → Type 0
IsFifth s ts =
    (s.failed_attempts + length ts + 1 ≡ max_pin_attempts)
    ⊎ ((ts ≡ []) × (max_pin_attempts ≤ s.failed_attempts))

-- A wrong PIN that is not the fifth leaves a cooldown as it was.
All-IsFree :
    (s t : LockState) (ts : List ℕ)
    → t.cooldown_until ≡ s.cooldown_until
    → All (IsFree s) ts
    → All (IsFree t) ts
All-IsFree s t [] e h = h
All-IsFree s t (x ∷ xs) e (h, hs) = (ap (λ c. is_live c x) e ∙ h, All-IsFree s t xs e hs)

wrong_pins_lock :
    (s : LockState) (ts : List ℕ) (last : ℕ)
    → All (IsFree s) ts
    → IsFree s last
    → IsFifth s ts
    → IsLockedTill (last + cooldown_ms) (run s (wrong_pins ts ++ (last, enters_pin false) ∷ []))
unfolding run
wrong_pins_lock s [] last free c (inl h) = last_wrong_pin s last c (omega arith)
wrong_pins_lock s [] last free c (inr (_, h)) = last_wrong_pin s last c (omega arith)
wrong_pins_lock s (t ∷ ts) last free c (inr (e, h)) = absurd (cc)
wrong_pins_lock s (t ∷ ts) last (now, free) c (inl h) =
    let (same, f) = wrong_pin s t now (omega arith) in
    wrong_pins_lock (step s (t, enters_pin false)) ts last
      (All-IsFree s (step s (t, enters_pin false)) ts same free) (ap (λ x. is_live x last) same ∙ c)
      (inl (omega arith))

-- Five wrong child PINs in a row, those that were already counted included, lock the child out, if no
-- cooldown is running at any of these attempts; and so does a single wrong PIN, where five or more were
-- counted before and the cooldown after them has run out. From then, for five minutes after the last
-- one, no PIN, right or wrong, and no attempt to escalate changes that: the lockout is shown, neither
-- her home nor the guardian surface is, and the cooldown still ends when it would have.
pub five_wrong_pins :
    (s : LockState) (ts : List ℕ) (last : ℕ) (trace : List (ℕ × Event)) (now : ℕ)
    → All (IsFree s) ts
    → IsFree s last
    → IsFifth s ts
    → All (TriedBefore (last + cooldown_ms)) trace
    → let s' = run (run s (wrong_pins ts ++ (last, enters_pin false) ∷ [])) trace in
      (can_render s' locked_out now ≡ true)
      × (can_render s' child_home now ≡ false)
      × (can_render s' guardian_escalation now ≡ false)
      × (s'.cooldown_until ≡ some (last + cooldown_ms))
unfolding can_render
five_wrong_pins s ts last trace now free c h tried =
    let (shown, ends) =
      run-IsLockedTill _ (last + cooldown_ms) trace tried (wrong_pins_lock s ts last free c h) in
    (rw shown, rw shown, rw shown, ends)
