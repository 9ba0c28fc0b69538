-- ===== src/ChildLock/Escalation.antt =====
-- Who reaches the guardian surface of lock.ts, and what a defeat of the lock leaves behind.
use olive_branch.Prelude.{
  ℕ, ◌+◌, ◌<◌, ◌≡◌, refl, ap, ◌∙◌, Bool, true, false, ◌⊎◌, inl, inr, Option, none, some, List, [],
  ◌∷◌, ◌++◌, arith, All, append_assoc, append-nil, subst, &&-split, ltb→lt, ◌↔◌, ◌≤◌,
}
use olive_branch.ChildLock.Lock.{
  LockState, LockMode, Surface, guardian_escalation, escalation_ttl_ms, initial_state, is_escalated,
  on_lock_task_exited, on_backgrounded, submit_child_pin, escalate, break_glass, can_render, Event,
  exits, hides, enters_pin, escalates, breaks_glass, step, run, on_pin_gate, on_guardian,
}

abbrev pub IsAttempt : ℕ × Event → Type 0
IsAttempt (now, escalates p b) = Unit
IsAttempt _ = ⊥

-- The trace ends in an escalation by PIN and biometric at `t`, followed by nothing but further
-- attempts to escalate, and the right it gave runs until `until`.
pub record Escalated (trace : List (ℕ × Event)) (until : Option ℕ) : Type 0 where
  pub before : List (ℕ × Event)
  pub time : ℕ
  pub after : List (ℕ × Event)
  pub splits : trace ≡ before ++ (time, escalates true true) ∷ after
  pub attempts : All IsAttempt after
  pub runs_until : until ≡ some (time + escalation_ttl_ms)

abbrev Inv : List (ℕ × Event) → LockState → Type 0
Inv trace s = s.surface ≡ guardian_escalation → Escalated trace s.escalated_until

All-snoc :
    (es : List (ℕ × Event)) (e : ℕ × Event)
    → All IsAttempt es
    → IsAttempt e
    → All IsAttempt (es ++ e ∷ [])
All-snoc [] e h p = (p, tt)
All-snoc (x ∷ es) e (q, h) p = (q, All-snoc es e h p)

escalate_cases :
    (s : LockState) (p b : Bool) (now : ℕ)
    → (escalate s p b now).0.surface ≡ guardian_escalation
    → ((p ≡ true)
        × (b ≡ true)
        × ((escalate s p b now).0.escalated_until ≡ some (now + escalation_ttl_ms)))
      ⊎ ((s.surface ≡ guardian_escalation)
          × ((escalate s p b now).0.escalated_until ≡ s.escalated_until))
unfolding escalate
escalate_cases s p b now g = ground arith

attempt-Inv :
    (trace : List (ℕ × Event)) (s : LockState) (now : ℕ) (p b : Bool)
    → Inv trace s
    → Inv (trace ++ (now, escalates p b) ∷ []) (escalate s p b now).0
attempt-Inv trace s now p b inv g = elim (escalate_cases s p b now g) [
  | inl (pin, bio, set) ↦ record {
    before = trace;
    time = now;
    after = [];
    splits = rw (pin, bio);
    attempts = tt;
    runs_until = set;
  }
  | inr (still, kept) ↦
      let old = inv still in
      record {
        before = old.before;
        time = old.time;
        after = old.after ++ (now, escalates p b) ∷ [];
        splits =
            ap (λ es. es ++ (now, escalates p b) ∷ []) old.splits ∙ append_assoc old.before _ _;
        attempts = All-snoc old.after _ old.attempts tt;
        runs_until = kept ∙ old.runs_until;
      }
]

step-Inv :
    (trace : List (ℕ × Event)) (s : LockState) (e : ℕ × Event)
    → Inv trace s
    → Inv (trace ++ e ∷ []) (step s e)
unfolding step on_lock_task_exited on_backgrounded submit_child_pin break_glass
step-Inv trace s (now, exits) inv g = absurd (ground arith)
step-Inv trace s (now, hides) inv g = absurd (ground arith)
step-Inv trace s (now, enters_pin c) inv g = absurd (ground arith)
step-Inv trace s (now, escalates p b) inv g = attempt-Inv trace s now p b inv g
step-Inv trace s (now, breaks_glass) inv g = absurd (ground arith)

run-Inv :
    (done trace : List (ℕ × Event)) (s : LockState) → Inv done s → Inv (done ++ trace) (run s trace)
unfolding run
run-Inv done [] s inv = rw append-nil inv
run-Inv done (e ∷ es) s inv =
    subst (λ t. Inv t (run (step s e) es)) (append_assoc done (e ∷ []) es)
      (run-Inv (done ++ e ∷ []) es (step s e) (step-Inv done s e inv))

-- The guardian surface is rendered only to someone who escalated. From a fresh lock, over any
-- events at any times, if `canRender` shows it at `now`, then the events end in an escalation
-- with a right PIN and a right biometric, less than fifteen minutes before `now`, and nothing but
-- attempts to escalate came after it: no defeat of the lock, no backgrounding, no child PIN and no
-- break-glass.
pub guardian_surface-Escalated :
    (mode : LockMode) (trace : List (ℕ × Event)) (now : ℕ)
    → can_render (run (initial_state mode) trace) guardian_escalation now ≡ true
    → (until : ℕ) × Escalated trace (some until) × (now < until)
unfolding can_render
guardian_surface-Escalated mode trace now h =
    let (shown, live) = &&-split (on_guardian s.surface) (is_escalated s now) h in
    let e = run-Inv [] trace (initial_state mode) fresh (is_guardian s.surface shown) in
    (
      e.time + escalation_ttl_ms,
      record {
        before = e.before;
        time = e.time;
        after = e.after;
        splits = e.splits;
        attempts = e.attempts;
        runs_until = refl;
      },
      ltb→lt _ _ (rw e.runs_until at live),
    )
  where
    s : LockState
    s = run (initial_state mode) trace

    fresh : Inv [] (initial_state mode)
    fresh g = absurd (unfold initial_state in cc)

    is_guardian : (x : Surface) → on_guardian x ≡ true → x ≡ guardian_escalation
    is_guardian x e = ground arith

-- Wherever the lock stood, after its task was exited every later `canRender` shows the PIN gate and
-- nothing else, no right of a guardian is live, the session that was running is the one whose
-- tokens are revoked and none is left, and the other guardian is notified exactly when a guardian's
-- right was live or this is at least the third defeat.
pub defeat_closes :
    (s : LockState) (now later : ℕ) (x : Surface)
    → let (s', effects) = on_lock_task_exited s now in
      (can_render s' x later ≡ on_pin_gate x)
      × (is_escalated s' later ≡ false)
      × (s'.active_session_id ≡ none)
      × (effects.revoke_session_tokens ≡ s.active_session_id)
      × ((effects.notify_other_guardian ≡ true)
          ↔ ((is_escalated s now ≡ true) ⊎ (2 ≤ s.defeat_count)))
unfolding on_lock_task_exited can_render
defeat_closes s now later x = ground arith
