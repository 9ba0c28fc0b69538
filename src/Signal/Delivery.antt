-- ===== src/Signal/Delivery.antt =====
-- signal.ts: the state of a child's signals, `deliver`, the other operations on the state, and the
-- deferral of a blocked signal. `Date.parse` in seconds, and the instant an hour after another by
-- `toISOString`, are parameters; they are none where the source throws or computes NaN.
use olive_branch.Prelude.{
  ℕ, ◌+◌, Bool, true, false, not, ◌&&◌, ◌||◌, Option, none, some, String, ltb, leb, if◌then◌else◌,
  str_lt,
}
use olive_branch.Signal.Catalogue.{
  SignalKind, come_back, Application, application, Principal, Configuration, Interruptibility,
  always, defers, never, can_send, active_in_configuration,
}
use olive_branch.Signal.Priority.{Pending}

pub record SignalState : Type 0 where
  pub current : Option Pending
  pub muted_until : Option String
  pub sent_today : ℕ
  pub transitioning : Bool

abbrev pub daily_ceiling : ℕ
daily_ceiling = 12

unfoldable pub new_state : SignalState
new_state = record { current = none; muted_until = none; sent_today = 0; transitioning = false }

pub data DeliverError : Type 0 where
  muted over_daily_ceiling silent_hours blocked_window mid_transition : DeliverError
  not_interruptible sender_not_permitted configuration_inactive too_young : DeliverError

pub record DeliverContext : Type 0 where
  pub state : SignalState
  pub principal : Principal
  pub configuration : Configuration
  pub child_age : ℕ
  pub window_blocked : Bool
  pub local_hour : ℕ
  pub surface_busy : Bool
  pub now : String

abbrev pub silent_from_hour : ℕ
silent_from_hour = 20

abbrev pub silent_to_hour : ℕ
silent_to_hour = 7

unfoldable pub in_silent_hours : ℕ → Bool
in_silent_hours hour = leb silent_from_hour hour || ltb hour silent_to_hour

pub data Delivery : Type 0 where
  delivered : SignalState → Delivery
  undelivered : DeliverError → Delivery

abbrev pub is_always : Interruptibility → Bool
is_always always = true
is_always defers = false
is_always never = false

-- `state.mutedUntil && now < state.mutedUntil`
abbrev pub is_muted : Option String → String → Bool
is_muted none now = false
is_muted (some until) now = str_lt now until

-- `deliver` once the application of the signal's kind is found.
unfoldable pub deliver_as : Application → DeliverContext → Pending → Delivery
deliver_as app ctx p =
    if not (can_send ctx.principal)
    then undelivered sender_not_permitted
    else if not (active_in_configuration ctx.configuration)
    then undelivered configuration_inactive
    else if ltb ctx.child_age app.min_age
    then undelivered too_young
    else if is_muted ctx.state.muted_until ctx.now
    then undelivered muted
    else if leb daily_ceiling ctx.state.sent_today && not app.safety_critical
    then undelivered over_daily_ceiling
    else if in_silent_hours ctx.local_hour && not app.safety_critical
    then undelivered silent_hours
    else if ctx.window_blocked && not app.safety_critical
    then undelivered blocked_window
    else if ctx.state.transitioning
    then undelivered mid_transition
    else if ctx.surface_busy && not (is_always app.interruptibility)
    then undelivered not_interruptible
    else delivered (record ctx.state { current = some p; sent_today = ctx.state.sent_today + 1 })

-- None stands for the error that `!` would meet if the kind had no application.
unfoldable pub deliver : DeliverContext → Pending → Option Delivery
deliver ctx p = elim (application p.kind) [ none ↦ none | some app ↦ some (deliver_as app ctx p) ]

abbrev pub expire : SignalState → SignalState
expire s = record s { current = none }

abbrev pub dismiss : SignalState → SignalState
dismiss s = record s { current = none }

abbrev pub act : SignalState → SignalState
act s = record s { current = none; transitioning = true }

abbrev pub transition_complete : SignalState → SignalState
transition_complete s = record s { transitioning = false }

module _ (hour_after : String → Option String) where
  unfoldable pub mute_for_an_hour : SignalState → String → Option SignalState
  mute_for_an_hour s now = elim (hour_after now) [
    | none ↦ none
    | some until ↦ some (record s { current = none; muted_until = some until })
  ]

pub data DeferReason : Type 0 where
  for_silent_hours for_blocked_window : DeferReason

pub record DeferredSignal : Type 0 where
  pub pending : Pending
  pub reason : DeferReason
  pub deferred_at : Option ℕ

module _ (parse_seconds : String → Option ℕ) where
  abbrev pub defer_signal : Pending → DeferReason → String → DeferredSignal
  defer_signal p reason now = record {
    pending = p;
    reason = reason;
    deferred_at = parse_seconds now;
  }

abbrev pub deferral_stale_after_seconds : ℕ
deferral_stale_after_seconds = 3600

-- The difference is compared as a sum, since it may be negative; with NaN the test fails.
abbrev pub is_stale : Option ℕ → ℕ → Bool
is_stale none now = false
is_stale (some t) now = ltb (t + deferral_stale_after_seconds) now

-- The signal to deliver again, none for `stale`.
unfoldable pub redeliver_if_reachable : DeferredSignal → ℕ → Option Pending
redeliver_if_reachable d now = if is_stale d.deferred_at now then none else some d.pending

abbrev pub expires_after_seconds : ℕ
expires_after_seconds = 90

pub record EscapeHatch : Type 0 where
  pub reachable_in_taps : ℕ
  pub present_on_every_surface : Bool
  pub dismissible : Bool
  pub label : String

abbrev pub escape_hatch : EscapeHatch
escape_hatch = record {
  reachable_in_taps = 1;
  present_on_every_surface = true;
  dismissible = false;
  label = "Back to Dad";
}

pub record FirstRunLesson : Type 0 where
  pub kind : SignalKind
  pub copy : String
  pub requires_tap : Bool

abbrev pub first_run_lesson : FirstRunLesson
first_run_lesson = record {
  kind = come_back;
  copy = "This is what it looks like when Dad wants you. Give it a tap.";
  requires_tap = true;
}
