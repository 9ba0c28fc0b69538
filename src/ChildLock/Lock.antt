-- ===== src/ChildLock/Lock.antt =====
-- lock.ts: the state of the lock and its operations, and the lock as a machine over timed events.
use olive_branch.Prelude.{
  ℕ, ◌+◌, ◌*◌, String, Bool, true, false, not, ◌&&◌, ◌||◌, Option, none, some, List, [], ◌∷◌, ltb,
  leb, if◌then◌else◌, any,
}

pub data LockMode : Type 0 where
  locked pinned assigned guided unenforced : LockMode

pub data Surface : Type 0 where
  child_home child_session pin_gate guardian_escalation locked_out : Surface

pub record LockState : Type 0 where
  pub mode : LockMode
  pub surface : Surface
  pub escalated_until : Option ℕ
  pub failed_attempts : ℕ
  pub cooldown_until : Option ℕ
  pub active_session_id : Option String
  pub defeat_count : ℕ

pub data AuditEvent : Type 0 where
  kiosk_defeated_while_escalated kiosk_defeated : AuditEvent
  backgrounded_while_escalated backgrounded : AuditEvent
  break_glass_used : AuditEvent

pub record DefeatEffects : Type 0 where
  pub revoke_session_tokens : Option String
  pub notify_other_guardian : Bool
  pub audit_event : AuditEvent

abbrev pub escalation_ttl_ms : ℕ
escalation_ttl_ms = 15 * 60 * 1000

abbrev pub max_pin_attempts : ℕ
max_pin_attempts = 5

abbrev pub cooldown_ms : ℕ
cooldown_ms = 5 * 60 * 1000

abbrev pub mode_is : LockMode → LockMode → Bool
mode_is locked locked = true
mode_is pinned pinned = true
mode_is assigned assigned = true
mode_is guided guided = true
mode_is unenforced unenforced = true
mode_is _ _ = false

abbrev pub escapable : List LockMode
escapable = pinned ∷ assigned ∷ guided ∷ unenforced ∷ []

unfoldable pub initial_state : LockMode → LockState
initial_state mode = record {
  mode = mode;
  surface = child_home;
  escalated_until = none;
  failed_attempts = 0;
  cooldown_until = none;
  active_session_id = none;
  defeat_count = 0;
}

-- `until !== null && new Date(until) > now`
abbrev pub is_live : Option ℕ → ℕ → Bool
is_live none now = false
is_live (some until) now = ltb now until

abbrev pub is_escalated : LockState → ℕ → Bool
is_escalated s now = is_live s.escalated_until now

unfoldable pub on_lock_task_exited : LockState → ℕ → LockState × DefeatEffects
on_lock_task_exited s now =
    let was_escalated = is_escalated s now in
    (
      record s {
        surface = pin_gate;
        escalated_until = none;
        active_session_id = none;
        defeat_count = s.defeat_count + 1;
      },
      record {
        revoke_session_tokens = s.active_session_id;
        notify_other_guardian = was_escalated || leb 3 (s.defeat_count + 1);
        audit_event = if was_escalated then kiosk_defeated_while_escalated else kiosk_defeated;
      },
    )

unfoldable pub on_backgrounded : LockState → ℕ → LockState × DefeatEffects
on_backgrounded s now =
    let was_escalated = is_escalated s now in
    (
      record s { surface = pin_gate; escalated_until = none; active_session_id = none },
      record {
        revoke_session_tokens = s.active_session_id;
        notify_other_guardian = false;
        audit_event = if was_escalated then backgrounded_while_escalated else backgrounded;
      },
    )

unfoldable pub submit_child_pin : LockState → Bool → ℕ → LockState
submit_child_pin s correct now =
    if is_live s.cooldown_until now
    then record s { surface = locked_out }
    else if correct
    then record s { surface = child_home; failed_attempts = 0; cooldown_until = none }
    else let failed : ℕ = s.failed_attempts + 1 in
      if leb max_pin_attempts failed
      then record s {
        surface = locked_out;
        failed_attempts = failed;
        cooldown_until = some (now + cooldown_ms);
      }
      else record s { surface = pin_gate; failed_attempts = failed }

pub data Denied : Type 0 where
  pin biometric cooldown : Denied

unfoldable pub escalate : LockState → Bool → Bool → ℕ → LockState × Option Denied
escalate s pin_ok biometric_ok now =
    if is_live s.cooldown_until now
    then (record s { surface = locked_out }, some cooldown)
    else if not pin_ok
    then (
      if leb max_pin_attempts (s.failed_attempts + 1)
          then record s {
            surface = locked_out;
            failed_attempts = s.failed_attempts + 1;
            cooldown_until = some (now + cooldown_ms);
          }
          else record s { failed_attempts = s.failed_attempts + 1 },
      some pin,
    )
    else if not biometric_ok
    then (record s { failed_attempts = 0 }, some biometric)
    else (
      record s {
        surface = guardian_escalation;
        escalated_until = some (now + escalation_ttl_ms);
        failed_attempts = 0;
      },
      none,
    )

unfoldable pub break_glass : LockState → ℕ → LockState × AuditEvent
break_glass s now = (
  record s { surface = child_home; cooldown_until = none; failed_attempts = 0 },
  break_glass_used,
)

abbrev pub on_child_surface : Surface → Bool
on_child_surface child_home = true
on_child_surface child_session = true
on_child_surface _ = false

abbrev pub on_pin_gate : Surface → Bool
on_pin_gate pin_gate = true
on_pin_gate _ = false

abbrev pub on_locked_out : Surface → Bool
on_locked_out locked_out = true
on_locked_out _ = false

abbrev pub on_guardian : Surface → Bool
on_guardian guardian_escalation = true
on_guardian _ = false

unfoldable pub can_render : LockState → Surface → ℕ → Bool
can_render s child_home now = on_child_surface s.surface
can_render s child_session now = on_child_surface s.surface
can_render s pin_gate now = on_pin_gate s.surface
can_render s locked_out now = on_locked_out s.surface
can_render s guardian_escalation now = on_guardian s.surface && is_escalated s now

unfoldable pub lock_advisory : LockMode → String
lock_advisory mode =
    if any (mode_is mode) escapable
    then "This device can be unlocked by your child. The app will ask for their PIN again if that happens, and no adult settings will be reachable."
    else "This device is fully locked to the app."

-- What can happen to the lock: each event is a call of one operation.
pub data Event : Type 0 where
  exits hides : Event
  enters_pin : (correct : Bool) → Event
  escalates : (pin_ok biometric_ok : Bool) → Event
  breaks_glass : Event

unfoldable pub step : LockState → ℕ × Event → LockState
step s (now, exits) = (on_lock_task_exited s now).0
step s (now, hides) = (on_backgrounded s now).0
step s (now, enters_pin correct) = submit_child_pin s correct now
step s (now, escalates pin_ok biometric_ok) = (escalate s pin_ok biometric_ok now).0
step s (now, breaks_glass) = (break_glass s now).0

unfoldable pub run : LockState → List (ℕ × Event) → LockState
run s [] = s
run s (e ∷ es) = run (step s e) es
