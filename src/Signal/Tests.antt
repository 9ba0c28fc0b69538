-- ===== src/Signal/Tests.antt =====
-- The theorems on signal.ts at concrete signals. Instants compare by the length of their texts.
use olive_branch.Prelude.{
  ◌+◌, ◌≤◌, String, ◌≡◌, refl, ◌↔◌, Bool, true, false, Option, none, some, List, [], ◌∷◌, All,
  IsOrder, ltb, length, codes, non_empty, arith, str_lt,
}
use olive_branch.Signal.Catalogue.{
  come_back, turn_it_round, Application, application, parent, both_parents, sole_guardian,
}
use olive_branch.Signal.Priority.{Pending, PriorityReason, prioritise}
use olive_branch.Signal.Fairness.{IsFair, prioritise-IsFair}
use olive_branch.Signal.Delivery.{SignalState, DeliverContext, delivered, deliver}
use olive_branch.Signal.Ceiling.{
  Reaches, deliver_iff, Event, signal, expiry, run, run-ceiling, IsNoMute, Before,
}

abbrev shorter : String → String → Bool
shorter x y = ltb (length (codes x)) (length (codes y))

shorter-IsOrder : IsOrder shorter
shorter-IsOrder = record {
  asymmetric = λ x y h. ground arith;
  cotransitive = λ x y z h k. ground arith;
}

abbrev dads : Pending
dads = record {
  kind = come_back;
  from_user_id = "dad";
  sender_is_present = false;
  in_call = false;
  at = "12";
}

abbrev mums : Pending
mums = record {
  kind = turn_it_round;
  from_user_id = "mum";
  sender_is_present = true;
  in_call = true;
  at = "1";
}

some_pending : non_empty (mums ∷ dads ∷ []) ≡ true
some_pending = refl

prioritise-IsFair_example :
    (w : Pending) × (s : PriorityReason) × (prioritise shorter (mums ∷ dads ∷ [])
      ≡ some (record { winner = w; reason = s }))
    × IsFair shorter shorter-IsOrder (mums ∷ dads ∷ []) w
prioritise-IsFair_example =
    prioritise-IsFair shorter shorter-IsOrder (mums ∷ dads ∷ []) some_pending

abbrev context : DeliverContext
context = record {
  state = record { current = none; muted_until = some "2"; sent_today = 3; transitioning = false };
  principal = parent;
  configuration = both_parents;
  child_age = 5;
  window_blocked = false;
  local_hour = 10;
  surface_busy = false;
  now = "1";
}

-- The same child, not muted, whose one guardian signals.
abbrev unmuted : DeliverContext
unmuted = record context {
  state = record { current = none; muted_until = none; sent_today = 3; transitioning = false };
  configuration = sole_guardian;
}

abbrev shown : SignalState
shown = record { current = some dads; muted_until = none; sent_today = 4; transitioning = false }

dads_is_shown : deliver unmuted dads ≡ some (delivered shown)
unfolding deliver application olive_branch.Signal.Delivery.deliver_as
    olive_branch.Signal.Catalogue.can_send olive_branch.Signal.Catalogue.active_in_configuration
    olive_branch.Signal.Delivery.in_silent_hours
dads_is_shown = refl

deliver_iff_example : (deliver unmuted dads ≡ some (delivered shown)) ↔ (
    (app : Application) × (application come_back ≡ some app)
    × Reaches app unmuted
    × (shown ≡ record unmuted.state { current = some dads; sent_today = 3 + 1 }))
deliver_iff_example = deliver_iff unmuted dads shown

abbrev later : String → Option String
later now = some "2"

abbrev day : List Event
day = signal context dads ∷ expiry ∷ []

within : context.state.sent_today ≤ 12
within = omega arith

run-ceiling_example : (run later context.state day).sent_today ≤ 12
run-ceiling_example = run-ceiling later context.state day within

muted : context.state.muted_until ≡ some "2"
muted = refl

nothing_shown : context.state.current ≡ none
nothing_shown = refl

no_mute : All IsNoMute day
no_mute = (tt, (tt, tt))

in_time : All (Before "2") day
unfolding str_lt
in_time = (refl, (tt, tt))
