-- ===== src/Messaging/Retention.antt =====
-- What pipeline.ts captures.
use olive_branch.Prelude.{
  ℕ, ◌≤◌, ◌<◌, String, ◌≡◌, refl, sym, ◌∙◌, ap, ◌⊎◌, inl, inr, Bool, true, false, not, Option, none,
  some, some-injective, List, leb, if◌then◌else◌, str_eq, eq_iff, arith,
}
use olive_branch.Time.Luxon.{Luxon}
use olive_branch.Family.Authorize.{Edge, Decision, allow, deny, can, message}
use olive_branch.Delivery.Materialize.{
  ChildCtx, Moment, Schedule, Result, scheduled, skipped, materialize, grace_floor,
}
use olive_branch.Delivery.Timely.{materialize-IsTimely}
use olive_branch.Messaging.Capture.{
  CaptureDenial, not_authorized, empty_recording, child_sender_mismatch, child_cannot_preserve,
  CaptureInput, ArtifactRow, IntentRow, CaptureResult, captured, denied, is_child_sender, names,
  is_refused, sender_denial, when, no_later, later, probe, intent_expiry, artifact_expiry,
  artifact_of, intent_of, artifact_grace_days, filed, if_permitted, capture_message,
}

-- A child sends as herself and preserves nothing; anyone else is allowed to send her messages.
abbrev pub MaySend : CaptureInput → List Edge → ℕ → Type 0
MaySend input edges now =
    ((input.sender_role ≡ "child")
      × (input.sender_child_id ≡ some input.child_id)
      × (input.preserve ≡ false))
    ⊎ ((str_eq input.sender_role "child" ≡ false)
        × (can message edges input.child_id now (some input.sender_role) false ≡ allow))

names-same : (o : Option String) (id : String) → names o id ≡ true → o ≡ some id
names-same none id e = cc
names-same (some x) id e = ap some ((eq_iff x id).0 e)

not_refused : (d : Decision) → is_refused d ≡ false → d ≡ allow
not_refused allow e = refl
not_refused (deny why) e = absurd (cc)

gates :
    (child named preserve refused : Bool)
    → (if child
        then (if not named
            then some child_sender_mismatch
            else (if preserve then some child_cannot_preserve else none))
        else (if refused then some not_authorized else none))
      ≡ none
    → ((child ≡ true) × (named ≡ true) × (preserve ≡ false)) ⊎ ((child ≡ false) × (refused ≡ false))
gates true true true refused e = absurd (cc)
gates true true false refused e = inl (refl, refl, refl)
gates true false preserve refused e = absurd (cc)
gates false named preserve true e = absurd (cc)
gates false named preserve false e = inr (refl, refl)

sender_denial-MaySend :
    (input : CaptureInput) (edges : List Edge) (now : ℕ)
    → sender_denial input edges now ≡ none
    → MaySend input edges now
unfolding sender_denial
sender_denial-MaySend input edges now e =
    elim (gates (is_child_sender input) (names input.sender_child_id input.child_id) input.preserve
      (is_refused (can message edges input.child_id now (some input.sender_role) false)) e) [
        | inl (child, named, kept) ↦ inl ((eq_iff _ _).0 child, names-same _ _ named, kept)
        | inr (adult, may) ↦ inr (adult, not_refused _ may)
      ]

positive : (n : ℕ) → leb n 0 ≡ false → 0 < n
positive n h = ground arith

outlives : (a i : Option ℕ) → no_later a i ≡ false → (x y : ℕ) → a ≡ some x → i ≡ some y → y < x
outlives none i e x y p q = absurd (cc)
outlives (some a) none e x y p q = absurd (cc)
outlives (some a) (some i) e x y p q = ground (arith, some-injective _ _ p, some-injective _ _ q)

branch :
    (b : Bool) (why : CaptureDenial) (p a : ArtifactRow) (q i : IntentRow)
    → some (if b then denied why else captured p q) ≡ some (captured a i)
    → (b ≡ false) × (a ≡ p) × (i ≡ q)
branch true why p a q i e = absurd (cc)
branch false why p a q i e = (refl, cc, cc)

permitted :
    (d : Option CaptureDenial) (rest : Option CaptureResult) (a : ArtifactRow) (i : IntentRow)
    → if_permitted d rest ≡ some (captured a i)
    → (d ≡ none) × (rest ≡ some (captured a i))
permitted none rest a i e = (refl, e)
permitted (some why) rest a i e = absurd (cc)

recorded :
    (empty : Bool) (rest : Option CaptureResult) (a : ArtifactRow) (i : IntentRow)
    → (if empty then some (denied empty_recording) else rest) ≡ some (captured a i)
    → (empty ≡ false) × (rest ≡ some (captured a i))
recorded true rest a i e = absurd (cc)
recorded false rest a i e = (refl, e)

module _ (l : Luxon) (plus_days : ℕ → String → ℕ → ℕ) (iso : ℕ → String) where
  -- The schedule that the rows were made from.
  abbrev pub IsFiled : CaptureInput → ChildCtx → Moment → ArtifactRow → IntentRow → Type 0
  IsFiled input ctx now a i =
      (s : Schedule) × (materialize l (probe l plus_days iso input now) ctx now
        ≡ some (scheduled s))
      × (a ≡ artifact_of l plus_days iso input ctx now s)
      × (i ≡ intent_of l plus_days iso input s)
      × (no_later (artifact_expiry l plus_days iso input s) (intent_expiry l plus_days iso s)
          ≡ false)

  filed-IsFiled :
      (input : CaptureInput) (ctx : ChildCtx) (now : Moment) (m : Option Result) (a : ArtifactRow)
      (i : IntentRow)
      → materialize l (probe l plus_days iso input now) ctx now ≡ m
      → filed l plus_days iso input ctx now m ≡ some (captured a i)
      → IsFiled input ctx now a i
  filed-IsFiled input ctx now none a i e f = absurd (cc)
  filed-IsFiled input ctx now (some (skipped why)) a i e f = absurd (cc)
  filed-IsFiled input ctx now (some (scheduled s)) a i e f =
      let (kept, artifact, intent) = branch _ _ _ a _ i f in (s, e, artifact, intent, kept)

  preserved-none :
      (input : CaptureInput) (s : Schedule)
      → input.preserve ≡ true
      → artifact_expiry l plus_days iso input s ≡ none
  preserved-none input s e =
      ap
        (λ b.
          when (not b)
            (later l plus_days iso (intent_expiry l plus_days iso s) s.tz artifact_grace_days))
        e

  -- A recording that is captured is not empty, and was sent by the child herself, who preserves nothing,
  -- or by someone whom the family's edges allow to send her messages. It is scheduled no earlier than two
  -- hours before now, its intent expires ninety days after that, a preserved artifact has no clock, and
  -- an artifact with a clock outlives its intent.
  pub capture_message-IsSound :
      (input : CaptureInput) (edges : List Edge) (ctx : ChildCtx) (now : Moment) (a : ArtifactRow)
      (i : IntentRow)
      → capture_message l plus_days iso input edges ctx now ≡ some (captured a i)
      → (0 < input.duration_ms)
        × MaySend input edges now.millis
        × ((s : Schedule) × ((t : ℕ) → s.scheduled_at ≡ some t → grace_floor now.millis ≤ t)
            × (i.expires_at ≡ later l plus_days iso s.scheduled_at s.tz 90))
        × (input.preserve ≡ true → a.expires_at ≡ none)
        × ((x y : ℕ) → a.expires_at ≡ some x → i.expires_at ≡ some y → y < x)
  unfolding capture_message
  capture_message-IsSound input edges ctx now a i e =
      let (long, e1) = recorded _ _ a i e in
      let (may, e2) = permitted _ _ a i e1 in
      let (s, m, artifact, intent, kept) =
        filed-IsFiled input ctx now (materialize l (probe l plus_days iso input now) ctx now) a i
          refl e2 in
      let (timely, _, _) = materialize-IsTimely l (probe l plus_days iso input now) ctx now s m in
      let a_clock : a.expires_at ≡ artifact_expiry l plus_days iso input s =
        ap (λ (x : ArtifactRow). x.expires_at) artifact in
      let i_clock : i.expires_at ≡ intent_expiry l plus_days iso s =
        ap (λ (x : IntentRow). x.expires_at) intent in
      (
        positive input.duration_ms long,
        sender_denial-MaySend input edges now.millis may,
        (s, timely, i_clock),
        λ p. a_clock ∙ preserved-none input s p,
        λ x y p q. outlives _ _ kept x y (sym a_clock ∙ p) (sym i_clock ∙ q),
      )
