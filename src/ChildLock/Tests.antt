-- ===== src/ChildLock/Tests.antt =====
-- The theorems on lock.ts at concrete traces.
use olive_branch.Prelude.{
  inl, ℕ, ◌+◌, ◌≡◌, refl, ◌<◌, true, false, some, List, [], ◌∷◌, ◌++◌, All, arith,
}
use olive_branch.ChildLock.Lock.{
  LockMode, pinned, Event, exits, enters_pin, escalates, LockState, Surface, child_home, pin_gate,
  guardian_escalation, locked_out, initial_state, is_escalated, on_lock_task_exited, can_render,
  run, on_pin_gate, cooldown_ms, max_pin_attempts,
}
use olive_branch.ChildLock.Escalation.{Escalated, guardian_surface-Escalated}
use olive_branch.ChildLock.Lockout.{TriedBefore, IsFree, IsFifth, wrong_pins, five_wrong_pins}

abbrev trace : List (ℕ × Event)
trace = (1000, exits) ∷ (2000, escalates true true) ∷ []

rendered : can_render (run (initial_state pinned) trace) guardian_escalation 5000 ≡ true
unfolding can_render run olive_branch.ChildLock.Lock.step olive_branch.ChildLock.Lock.escalate
    on_lock_task_exited initial_state
rendered = refl

guardian_surface-Escalated_example : (until : ℕ) × Escalated trace (some until) × (5000 < until)
guardian_surface-Escalated_example = guardian_surface-Escalated pinned trace 5000 rendered

free : All (IsFree (initial_state pinned)) (1 ∷ 2 ∷ 3 ∷ 4 ∷ [])
unfolding initial_state
free = (refl, (refl, (refl, (refl, tt))))

free_last : IsFree (initial_state pinned) 5
unfolding initial_state
free_last = refl

counted : IsFifth (initial_state pinned) (1 ∷ 2 ∷ 3 ∷ 4 ∷ [])
unfolding initial_state
counted = inl refl

tried : All (TriedBefore (5 + cooldown_ms)) ((6, enters_pin true) ∷ [])
tried = (omega arith, tt)

five_wrong_pins_example :
    let s' =
      run
        (run (initial_state pinned) (wrong_pins (1 ∷ 2 ∷ 3 ∷ 4 ∷ []) ++ (5, enters_pin false) ∷ []))
        ((6, enters_pin true) ∷ []) in
    (can_render s' locked_out 7 ≡ true)
    × (can_render s' child_home 7 ≡ false)
    × (can_render s' guardian_escalation 7 ≡ false)
    × (s'.cooldown_until ≡ some (5 + cooldown_ms))
five_wrong_pins_example =
    five_wrong_pins (initial_state pinned) (1 ∷ 2 ∷ 3 ∷ 4 ∷ []) 5 ((6, enters_pin true) ∷ []) 7 free
      free_last counted tried
