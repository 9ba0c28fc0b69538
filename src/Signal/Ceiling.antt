-- ===== src/Signal/Ceiling.antt =====
-- What `deliver` of signal.ts lets through, and what no sequence of operations can get past.
use olive_branch.Prelude.{
  ◌+◌, ◌≡◌, refl, ◌↔◌, ◌≢◌, ◌≤◌, ◌<◌, true, false, Option, none, some, String, str_lt, List, [],
  ◌∷◌, arith, Option-cases, some-injective, All, sym, ap, subst, ◌∙◌, ◌⊎◌, inl, inr,
}
use olive_branch.Signal.Catalogue.{
  Application, application, application_total, Principal, Configuration, always, parent,
  both_in_same_house, can_send, active_in_configuration,
}
use olive_branch.Signal.Priority.{Pending}
use olive_branch.Signal.Delivery.{
  SignalState, DeliverContext, in_silent_hours, Delivery, delivered, undelivered, is_muted,
  deliver_as, deliver, expire, dismiss, act, transition_complete, mute_for_an_hour,
}

-- The conditions of a delivery.
pub record Reaches (app : Application) (ctx : DeliverContext) : Type 0 where
  pub from_parent : ctx.principal ≡ parent
  pub not_one_house : ctx.configuration ≢ both_in_same_house
  pub old_enough : app.min_age ≤ ctx.child_age
  pub not_muted : is_muted ctx.state.muted_until ctx.now ≡ false
  pub below_ceiling : ctx.state.sent_today < 12
  pub awake : (7 ≤ ctx.local_hour) × (ctx.local_hour < 20)
  pub open_window : ctx.window_blocked ≡ false
  pub idle : ctx.state.transitioning ≡ false
  pub interrupts : ctx.surface_busy ≡ true → app.interruptibility ≡ always

can_send_iff : (p : Principal) → (can_send p ≡ true) ↔ (p ≡ parent)
unfolding can_send
can_send_iff p = ground arith

active_iff : (c : Configuration) → (active_in_configuration c ≡ true) ↔ (c ≢ both_in_same_house)
unfolding active_in_configuration
active_iff c = ground arith

deliver_as_iff :
    (app : Application) (ctx : DeliverContext) (p : Pending) (s : SignalState)
    → app.safety_critical ≡ false
    → (deliver_as app ctx p ≡ delivered s) ↔ (
        Reaches app ctx
        × (s ≡ record ctx.state { current = some p; sent_today = ctx.state.sent_today + 1 }))
unfolding deliver_as in_silent_hours
deliver_as_iff app ctx p s harmless =
    let send = can_send_iff ctx.principal in
    let active = active_iff ctx.configuration in ground arith

-- `deliver` lets a signal through exactly when a parent sends it, the family's configuration is any but
-- both parents in the same house, the child is old enough for the kind, not muted, below twelve signals
-- today, between 7 and 20 o'clock, in no blocked window, not acting on another signal, and not busy
-- unless the kind always interrupts; then the signal replaces the current one and is counted.
pub deliver_iff :
    (ctx : DeliverContext) (p : Pending) (s : SignalState)
    → (deliver ctx p ≡ some (delivered s)) ↔ (
        (app : Application) × (application p.kind ≡ some app)
        × Reaches app ctx
        × (s ≡ record ctx.state { current = some p; sent_today = ctx.state.sent_today + 1 }))
unfolding deliver
deliver_iff ctx p s =
    let (app, found, _, _, harmless) = application_total p.kind in
    let (to, from) = deliver_as_iff app ctx p s harmless in
    (
      λ h.
          let (r, e) = to (some-injective _ _ (sym (deliver-found ctx p app found) ∙ h)) in
          (app, found, r, e),
      λ (other, found2, r, e).
          let same = some-injective _ _ (sym found ∙ found2) in
          deliver-found ctx p app found
          ∙ ap some (from (subst (λ a. Reaches a ctx) (sym same) r, e)),
    )
  where
    deliver-found :
        (ctx : DeliverContext) (p : Pending) (app : Application)
        → application p.kind ≡ some app
        → deliver ctx p ≡ some (deliver_as app ctx p)
    deliver-found ctx p app found = rw (found, deliver) refl

-- What may happen to the state of one child's signals. The context of a delivery is taken with
-- the state at hand.
pub data Event : Type 0 where
  signal : DeliverContext → Pending → Event
  expiry dismissal action completion : Event
  mute : (now : String) → Event

-- Any event but another mute.
abbrev pub IsNoMute : Event → Type 0
IsNoMute (mute now) = ⊥
IsNoMute _ = Unit

-- Every signal among the events comes before the given instant.
abbrev pub Before : String → Event → Type 0
Before until (signal ctx p) = str_lt ctx.now until ≡ true
Before until _ = Unit

module _ (hour_after : String → Option String) where
  abbrev state_after : SignalState → Option Delivery → SignalState
  state_after s (some (delivered t)) = t
  state_after s _ = s

  unfoldable pub step : SignalState → Event → SignalState
  step s (signal ctx p) = state_after s (deliver (record ctx { state = s }) p)
  step s expiry = expire s
  step s dismissal = dismiss s
  step s action = act s
  step s completion = transition_complete s
  step s (mute now) = elim (mute_for_an_hour hour_after s now) [ none ↦ s | some t ↦ t ]

  unfoldable pub run : SignalState → List Event → SignalState
  run s [] = s
  run s (e ∷ es) = run (step s e) es

  -- A delivery in a state: either nothing changes, or the conditions held and the signal counts.
  signal-cases :
      (s : SignalState) (ctx : DeliverContext) (p : Pending)
      → (step s (signal ctx p) ≡ s)
        ⊎ ((app : Application) × Reaches app (record ctx { state = s })
            × (step s (signal ctx p)
                ≡ record s { current = some p; sent_today = s.sent_today + 1 }))
  signal-cases s ctx p = elim (Option-cases (deliver (record ctx { state = s }) p)) [
    | inl e ↦ inl (unfold step in rw e refl)
    | inr (undelivered r, e) ↦ inl (unfold step in rw e refl)
    | inr (delivered t, e) ↦
        let (app, _, reaches, is) = (deliver_iff (record ctx { state = s }) p t).0 e in
        inr (app, reaches, unfold step in rw e is)
  ]

  step-ceiling : (s : SignalState) (e : Event) → s.sent_today ≤ 12 → (step s e).sent_today ≤ 12
  step-ceiling s (signal ctx p) h = elim (signal-cases s ctx p) [
    | inl same ↦ subst (λ t. t.sent_today ≤ 12) (sym same) h
    | inr (app, reaches, next) ↦
        subst (λ t. t.sent_today ≤ 12) (sym next) (omega (arith, reaches.below_ceiling))
  ]
  step-ceiling s expiry h = unfold step in h
  step-ceiling s dismissal h = unfold step in h
  step-ceiling s action h = unfold step in h
  step-ceiling s completion h = unfold step in h
  step-ceiling s (mute now) h = unfold step mute_for_an_hour in ground arith

  -- Whatever happens in whatever order, the count of a day never passes twelve: no sequence of
  -- signals, expiries, dismissals, answers and mutes gets past the ceiling.
  pub run-ceiling :
      (s : SignalState) (es : List Event) → s.sent_today ≤ 12 → (run s es).sent_today ≤ 12
  unfolding run
  run-ceiling s [] h = h
  run-ceiling s (e ∷ es) h = run-ceiling (step s e) es (step-ceiling s e h)

  -- The child's own silence. From a state that is muted until an instant, whatever signals are sent
  -- before that instant, however many, nothing is shown and nothing is counted, as long as she does
  -- not mute anew.
  pub run-Muted :
      (s : SignalState) (until : String) (es : List Event)
      → s.muted_until ≡ some until
      → s.current ≡ none
      → All IsNoMute es
      → All (Before until) es
      → ((run s es).current ≡ none)
        × ((run s es).sent_today ≡ s.sent_today)
        × ((run s es).muted_until ≡ some until)
  unfolding run step
  run-Muted s until [] m c o b = (c, refl, m)
  run-Muted s until (signal ctx p ∷ es) m c (_, o) (b, bs) = elim (signal-cases s ctx p) [
    | inl same ↦
        subst
          (λ t.
            ((run t es).current ≡ none)
            × ((run t es).sent_today ≡ s.sent_today)
            × ((run t es).muted_until ≡ some until))
          (sym same) (run-Muted s until es m c o bs)
    | inr (app, reaches, next) ↦
        let open_to = subst (λ u. is_muted u ctx.now ≡ false) m reaches.not_muted in absurd (cc)
  ]
  run-Muted s until (expiry ∷ es) m c (_, o) (_, bs) = run-Muted (expire s) until es m refl o bs
  run-Muted s until (dismissal ∷ es) m c (_, o) (_, bs) = run-Muted (dismiss s) until es m refl o bs
  run-Muted s until (action ∷ es) m c (_, o) (_, bs) = run-Muted (act s) until es m refl o bs
  run-Muted s until (completion ∷ es) m c (_, o) (_, bs) =
      run-Muted (transition_complete s) until es m c o bs
  run-Muted s until (mute now ∷ es) m c (o, _) bs = absurd o
