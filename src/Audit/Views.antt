-- ===== src/Audit/Views.antt =====
-- `auditSenderView` of signal/src/signal.ts and `auditChildView` of games/src/games.ts. Lower case is that of
-- ASCII letters.
use olive_branch.Prelude.{
  ℕ, String, ◌≡◌, refl, ◌↔◌, Bool, true, false, ◌&&◌, List, [], ◌∷◌, ◌==◌, any, Mem, lower_case,
  codes,
}
use olive_branch.Rooms.Session.{dedupe_from}
use olive_branch.Audit.Reported.{reported_iff}
use olive_branch.Audit.{Value, walk, Occurs, walk_iff}

abbrev pub same_codes : List ℕ → List ℕ → Bool
same_codes [] [] = true
same_codes (x ∷ xs) (y ∷ ys) = (x == y) && same_codes xs ys
same_codes _ _ = false

abbrev pub sender_forbidden : List String
sender_forbidden =
    "delivered" ∷ "seen" ∷ "read" ∷ "ignored" ∷ "dismissed" ∷ "unanswered" ∷ "responseRate"
    ∷ "count" ∷ "attempts" ∷ "lastSeen" ∷ []

unfoldable pub is_sender_forbidden : String → Bool
is_sender_forbidden k = any (λ f. same_codes (lower_case k) (lower_case f)) sender_forbidden

-- The keys reported, each once; none for `ok: true`.
unfoldable pub audit_sender_view : Value → List String
audit_sender_view v = dedupe_from [] (walk is_sender_forbidden v)

abbrev pub child_forbidden : List String
child_forbidden =
    "elo" ∷ "rating" ∷ "rank" ∷ "wins" ∷ "losses" ∷ "record" ∷ "streak" ∷ "winRate" ∷ "win_rate"
    ∷ "skill" ∷ "level" ∷ "leaderboard" ∷ []

-- The key in lower case is compared with the word as it stands.
unfoldable pub is_child_forbidden : String → Bool
is_child_forbidden k = any (λ f. same_codes (lower_case k) (codes f)) child_forbidden

unfoldable pub audit_child_view : Value → List String
audit_child_view v = walk is_child_forbidden v

-- A view passes the sender's audit exactly when no key in it, at any depth, is a forbidden word in any
-- case of its letters.
pub audit_sender_view_iff :
    (v : Value)
    → (audit_sender_view v ≡ []) ↔ ((k : String) → Occurs k v → is_sender_forbidden k ≡ false)
unfolding audit_sender_view
audit_sender_view_iff v = reported_iff is_sender_forbidden v

win_rate_allowed : is_child_forbidden "winRate" ≡ false
unfolding is_child_forbidden
win_rate_allowed = refl

-- The child's audit never reports the key winRate, whatever the view, although the word is on its list.
pub audit_child_view-misses : (v : Value) → ¬ Mem "winRate" (audit_child_view v)
unfolding audit_child_view
audit_child_view-misses v m =
    let (o, f) = (walk_iff is_child_forbidden "winRate" v).0 m in
    let e = win_rate_allowed in absurd (cc)
