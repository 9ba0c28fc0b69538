-- ===== src/Custody/Presence.antt =====
-- schedule.ts: the label of a block for the child, and which parent is free now. Texts are compared by
-- `<` where the source does, and by the parameter `locale_before` where it calls `localeCompare`.
use olive_branch.Prelude.{
  ℕ, ◌+◌, ◌%◌, String, ◌≡◌, refl, ◌⊎◌, inl, inr, Bool, true, not, ◌&&◌, ◌||◌, Option, none, some,
  List, ◌==◌, if◌then◌else◌, filterb, any, first_sorted, Best, first_filtered, IsOrder, Mem, str_eq,
  str_lt, arith,
}
use olive_branch.Custody.Schedule.{le_text}

pub record FreeCandidate : Type 0 where
  pub user_id : String
  pub name : String

pub record FreeWindow : Type 0 where
  pub guardian_id : String
  pub guardian_name : String
  pub weekday : ℕ
  pub start_local : String
  pub end_local : String

pub record FreeGuardian : Type 0 where
  pub guardian_id : String
  pub guardian_name : String
  pub start_local : String
  pub end_local : String

abbrev pub is_window_active_now : String → String → String → Bool
is_window_active_now start_local end_local now =
    if le_text start_local end_local
    then le_text start_local now && str_lt now end_local
    else le_text start_local now || str_lt now end_local

abbrev pub is_candidate : List FreeCandidate → String → Bool
is_candidate candidates id = any (λ (c : FreeCandidate). str_eq c.user_id id) candidates

abbrev pub yesterday : ℕ → ℕ
yesterday now_weekday = (now_weekday + 6) % 7

abbrev pub is_free : List FreeCandidate → ℕ → String → FreeWindow → Bool
is_free candidates now_weekday now w =
    is_candidate candidates w.guardian_id
    && (if w.weekday == now_weekday
        then is_window_active_now w.start_local w.end_local now
        else ((w.weekday == yesterday now_weekday) && str_lt w.end_local w.start_local)
          && str_lt now w.end_local)

module _ (locale_before : String → String → Bool) where
  -- `a.startLocal.localeCompare(b.startLocal) || a.guardianId.localeCompare(b.guardianId)` is negative.
  abbrev pub starts_before : FreeWindow → FreeWindow → Bool
  starts_before a b =
      locale_before a.start_local b.start_local
      || (not (locale_before b.start_local a.start_local)
          && locale_before a.guardian_id b.guardian_id)

  abbrev pub free_of : FreeWindow → FreeGuardian
  free_of w = record {
    guardian_id = w.guardian_id;
    guardian_name = w.guardian_name;
    start_local = w.start_local;
    end_local = w.end_local;
  }

  unfoldable pub free_guardian_now :
      List FreeCandidate → List FreeWindow → ℕ → String → Option FreeGuardian
  free_guardian_now candidates windows now_weekday now =
      elim (first_sorted starts_before (filterb (is_free candidates now_weekday now) windows)) [
        | none ↦ none
        | some w ↦ some (free_of w)
      ]

  starts_before-IsOrder : IsOrder locale_before → IsOrder starts_before
  starts_before-IsOrder order = record {
    asymmetric = λ a b h. ground (
      arith,
      order.asymmetric a.start_local b.start_local,
      order.asymmetric a.guardian_id b.guardian_id,
    );
    cotransitive = λ a b c h k. ground (
      arith,
      order.cotransitive a.start_local b.start_local c.start_local,
      order.cotransitive c.start_local b.start_local a.start_local,
      order.cotransitive b.start_local c.start_local a.start_local,
      order.cotransitive c.start_local a.start_local b.start_local,
      order.cotransitive a.start_local c.start_local b.start_local,
      order.cotransitive b.start_local a.start_local c.start_local,
      order.cotransitive a.guardian_id b.guardian_id c.guardian_id,
    );
  }

  -- A guardian is shown exactly when a window of a candidate is open now, and then it is the guardian
  -- of an open window that no other open window starts before, nor, starting at the same time, has an
  -- id before it.
  pub free_guardian_now-IsBest :
      (order : IsOrder locale_before) (candidates : List FreeCandidate) (windows : List FreeWindow)
      (now_weekday : ℕ) (now : String)
      → ((free_guardian_now candidates windows now_weekday now ≡ none)
          × ((w : FreeWindow) → Mem w windows → is_free candidates now_weekday now w ≡ true → ⊥))
        ⊎ ((w : FreeWindow) × Best starts_before (is_free candidates now_weekday now) windows w
            × (free_guardian_now candidates windows now_weekday now ≡ some (free_of w)))
  unfolding free_guardian_now
  free_guardian_now-IsBest order candidates windows now_weekday now =
      elim (first_filtered starts_before (is_free candidates now_weekday now)
        (starts_before-IsOrder order) windows) [
          | inl (e, none_free) ↦ inl (rw (e, free_guardian_now) refl, none_free)
          | inr (w, best, e) ↦ inr (w, best, rw (e, free_guardian_now) refl)
        ]
