-- ===== src/Live/Trouble.antt =====
-- packages/live/src/modes.ts: voice notes, what the child is told when a call goes wrong, and the ladder
-- of qualities.
use olive_branch.Prelude.{
  ℕ, zero, suc, ◌+◌, ◌-◌, String, ◌≡◌, refl, Bool, true, false, not, List, [], ◌∷◌, length,
  get_elem?, ltb, if◌then◌else◌, min, max, filterb, or_else, occurs, lower_case, codes,
}
use olive_branch.Live.Games.{Side}

pub record VoiceNote : Type 0 where
  pub id : String
  pub from_side : Side
  pub seconds : ℕ
  pub at : String
  pub heard : Bool

abbrev pub ptt_max_seconds : ℕ
ptt_max_seconds = 60

abbrev pub ptt_min_seconds : ℕ
ptt_min_seconds = 1

pub data PttError : Type 0 where
  too_long too_short : PttError

pub data PttResult : Type 0 where
  noted : VoiceNote → PttResult
  unnoted : PttError → PttResult

unfoldable pub push_to_talk : String → Side → ℕ → String → PttResult
push_to_talk id from_side seconds at =
    if ltb ptt_max_seconds seconds
    then unnoted too_long
    else if ltb seconds ptt_min_seconds
    then unnoted too_short
    else noted
        (record { id = id; from_side = from_side; seconds = seconds; at = at; heard = false })

-- The `count` of `pttChildView`.
abbrev pub unheard : List VoiceNote → ℕ
unheard notes = length (filterb (λ (x : VoiceNote). not x.heard) notes)

pub data CallTrouble : Type 0 where
  frozen slow dropped reconnecting ended : CallTrouble

pub record TroubleView : Type 0 where
  pub state : CallTrouble
  pub line : String
  pub waiting : Bool

abbrev pub trouble_line : CallTrouble → String
trouble_line frozen = "The picture stopped. He is still there."
trouble_line slow = "It has gone a bit slow."
trouble_line reconnecting = "Finding him again."
trouble_line dropped = "It stopped. We are getting him back."
trouble_line ended = "That is the end of the call."

abbrev pub keeps_waiting : CallTrouble → Bool
keeps_waiting ended = false
keeps_waiting _ = true

unfoldable pub trouble_view : CallTrouble → TroubleView
trouble_view state = record {
  state = state;
  line = trouble_line state;
  waiting = keeps_waiting state;
}

abbrev pub trouble_banned : List String
trouble_banned =
    "failed" ∷ "failure" ∷ "error" ∷ "could not connect" ∷ "unavailable" ∷ "disconnected"
    ∷ "lost connection" ∷ "try again later" ∷ "poor connection" ∷ "your network" ∷ "check your" ∷ []

-- The banned words found; none for `ok: true`.
unfoldable pub audit_trouble : TroubleView → List String
audit_trouble v = filterb (λ w. occurs (codes w) (lower_case v.line)) trouble_banned

pub data Rung : Type 0 where
  hd sd audio_only banked : Rung

abbrev pub ladder : List Rung
ladder = hd ∷ sd ∷ audio_only ∷ banked ∷ []

-- `LADDER.indexOf(r)`
abbrev pub rung_index : Rung → ℕ
rung_index hd = 0
rung_index sd = 1
rung_index audio_only = 2
rung_index banked = 3

-- The default is for an index out of the ladder, which the two steps do not give.
unfoldable pub step_down : Rung → Rung
step_down r = or_else (get_elem? ladder (min (rung_index r + 1) (length ladder - 1))) banked

unfoldable pub step_up : Rung → Rung
step_up r = or_else (get_elem? ladder (max (rung_index r - 1) 0)) hd

abbrev pub rung_line : Rung → String
rung_line banked = "The line is not good enough right now, so record him something instead."
rung_line _ = ""

-- The rung after this many steps down.
unfoldable pub fall : ℕ → Rung → Rung
unfolding step_down
fall zero r = r
fall (suc n) r = fall n (step_down r)

-- What the child is told in any trouble has none of the banned words in it, in any case of its letters.
pub audit_trouble-trouble_view : (t : CallTrouble) → audit_trouble (trouble_view t) ≡ []
unfolding audit_trouble trouble_view
audit_trouble-trouble_view frozen = refl
audit_trouble-trouble_view slow = refl
audit_trouble-trouble_view dropped = refl
audit_trouble-trouble_view reconnecting = refl
audit_trouble-trouble_view ended = refl

fall-banked : (n : ℕ) → fall n banked ≡ banked
unfolding fall
fall-banked zero = refl
fall-banked (suc n) = fall-banked n

-- From any rung, three steps down or more lead to the banked message.
pub fall-bottom : (n : ℕ) (r : Rung) → fall (suc (suc (suc n))) r ≡ banked
unfolding fall
fall-bottom n hd = fall-banked n
fall-bottom n sd = fall-banked n
fall-bottom n audio_only = fall-banked n
fall-bottom n banked = fall-banked n
