-- ===== src/Audit/Words.antt =====
-- The audits that compare keys and words in lower case: `auditLiveView` of live/src/live.ts, and
-- `auditGroup` and `auditTherapist` of guardian/src/pending.ts.
use olive_branch.Prelude.{String, ◌≡◌, ◌↔◌, Bool, false, List, [], ◌∷◌, any, lower_case}
use olive_branch.Rooms.Session.{dedupe_from}
use olive_branch.Audit.{Value, walk, Occurs}
use olive_branch.Audit.Views.{same_codes}
use olive_branch.Audit.Reported.{reported_iff}

abbrev pub is_word : List String → String → Bool
is_word words k = any (λ f. same_codes (lower_case k) (lower_case f)) words

abbrev pub audit_words : List String → Value → List String
audit_words words v = dedupe_from [] (walk (is_word words) v)

abbrev pub live_forbidden : List String
live_forbidden =
    "score" ∷ "points" ∷ "streak" ∷ "record" ∷ "best" ∷ "highScore" ∷ "reactionMs" ∷ "reaction_ms"
    ∷ "accuracy" ∷ "rank" ∷ "timeLeft" ∷ "countdown" ∷ []

abbrev pub group_forbidden : List String
group_forbidden =
    "queue" ∷ "position" ∷ "waiting" ∷ "countdown" ∷ "remaining" ∷ "next up" ∷ "turn 2 of 3" ∷ []

abbrev pub therapist_forbidden : List String
therapist_forbidden =
    "body" ∷ "text" ∷ "transcript" ∷ "duration" ∷ "seconds" ∷ "minutes" ∷ "frequency" ∷ "journal"
    ∷ "letter" ∷ "sentiment" ∷ "mood" ∷ "concern" ∷ []

unfoldable pub audit_live_view : Value → List String
audit_live_view v = audit_words live_forbidden v

unfoldable pub audit_group : Value → List String
audit_group v = audit_words group_forbidden v

unfoldable pub audit_therapist : Value → List String
audit_therapist v = audit_words therapist_forbidden v

-- A live view, a view of a group call and a view for a therapist pass their audits exactly when no key in
-- them, at any depth, is a word of the audit's own list in any case of its letters.
pub audits_iff :
    (v : Value)
    → ((audit_live_view v ≡ []) ↔ ((k : String) → Occurs k v → is_word live_forbidden k ≡ false))
      × ((audit_group v ≡ []) ↔ ((k : String) → Occurs k v → is_word group_forbidden k ≡ false))
      × ((audit_therapist v ≡ [])
          ↔ ((k : String) → Occurs k v → is_word therapist_forbidden k ≡ false))
unfolding audit_live_view audit_group audit_therapist
audits_iff v = (
  reported_iff (is_word live_forbidden) v,
  reported_iff (is_word group_forbidden) v,
  reported_iff (is_word therapist_forbidden) v,
)
