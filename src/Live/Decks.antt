-- ===== src/Live/Decks.antt =====
-- live.ts: the shuffle of a deck, the cards drawn from it, and the session that draws them. The random
-- numbers of one shuffle are the parameter `pick`: `pick i` is `Math.floor(rand() * (i + 1))` in the
-- round of `i`.
use olive_branch.Prelude.{
  ℕ, zero, suc, ◌+◌, ◌-◌, String, Bool, true, false, Option, none, some, List, [], ◌∷◌, ◌++◌,
  length, get_elem?, if◌then◌else◌,
}
use olive_branch.Live.Games.{Side, side_a, side_b, LiveKind, prompts_of, game_of}

abbrev pub set_elem : {A : Type 0} → ℕ → A → List A → List A
set_elem i x [] = []
set_elem zero x (y ∷ ys) = x ∷ ys
set_elem (suc i) x (y ∷ ys) = y ∷ set_elem i x ys

abbrev pub put_both : {A : Type 0} → ℕ → ℕ → Option A → Option A → List A → List A
put_both i j (some a) (some b) xs = set_elem j b (set_elem i a xs)
put_both i j _ _ xs = xs

-- `[prompts[i], prompts[j]] = [prompts[j], prompts[i]]`, for indices in the array.
abbrev pub swap : {A : Type 0} → ℕ → ℕ → List A → List A
swap i j xs = put_both i j (get_elem? xs j) (get_elem? xs i) xs

-- The rounds of the shuffle from index `i` down to 1.
unfoldable pub shuffle_from : {A : Type 0} → (ℕ → ℕ) → ℕ → List A → List A
shuffle_from pick zero xs = xs
shuffle_from pick (suc i) xs = shuffle_from pick i (swap (suc i) (pick (suc i)) xs)

pub record DeckState : Type 0 where
  pub kind : LiveKind
  pub remaining : List String
  pub drawn : List String

unfoldable pub new_deck : LiveKind → (ℕ → ℕ) → DeckState
unfolding shuffle_from
new_deck kind pick = record {
  kind = kind;
  remaining = shuffle_from pick (length (prompts_of kind) - 1) (prompts_of kind);
  drawn = [];
}

pub record Drawn : Type 0 where
  pub prompt : String
  pub deck : DeckState

-- The first card of a new deck. There is always one, since every kind has prompts.
abbrev pub first_card : LiveKind → List String → Option Drawn
first_card kind [] = none
first_card kind (c ∷ cs) =
    some (record { prompt = c; deck = record { kind = kind; remaining = cs; drawn = c ∷ [] } })

abbrev pub draw_from : LiveKind → List String → List String → (ℕ → ℕ) → Option Drawn
draw_from kind [] [] pick = none
draw_from kind [] (d ∷ ds) pick = first_card kind (new_deck kind pick).remaining
draw_from kind (c ∷ cs) ds pick =
    some
      (record { prompt = c; deck = record { kind = kind; remaining = cs; drawn = ds ++ c ∷ [] } })

unfoldable pub draw : DeckState → (ℕ → ℕ) → Option Drawn
unfolding new_deck
draw d pick = draw_from d.kind d.remaining d.drawn pick

pub data ConnectionQuality : Type 0 where
  good poor lost : ConnectionQuality

pub record LiveSession : Type 0 where
  pub kind : LiveKind
  pub started_at : String
  pub leader : Side
  pub deck : DeckState
  pub current_prompt : Option String
  pub rounds : ℕ
  pub connection : ConnectionQuality
  pub degraded_at : Option String

-- `d?.deck ?? deck` and `d?.prompt ?? null`
abbrev pub deck_or : Option Drawn → DeckState → DeckState
deck_or none d = d
deck_or (some x) d = x.deck

abbrev pub prompt_or : Option Drawn → Option String
prompt_or none = none
prompt_or (some x) = some x.prompt

abbrev pub started : LiveKind → Side → String → DeckState → Option Drawn → LiveSession
started kind leader at deck d = record {
  kind = kind;
  started_at = at;
  leader = leader;
  deck = deck_or d deck;
  current_prompt = prompt_or d;
  rounds = 0;
  connection = good;
  degraded_at = none;
}

-- `startLive`, with `none` for `unknown_game`. The shuffle draws from `pick`, and the first card from
-- the deck so made.
unfoldable pub start_live : LiveKind → Side → String → (ℕ → ℕ) → Option LiveSession
unfolding draw
start_live kind leader at pick = elim (game_of kind) [
  | none ↦ none
  | some g ↦ some (started kind leader at (new_deck kind pick) (draw (new_deck kind pick) pick))
]

abbrev pub other_side : Side → Side
other_side side_a = side_b
other_side side_b = side_a

unfoldable pub next_round : LiveSession → (ℕ → ℕ) → LiveSession
unfolding draw
next_round s pick = record {
  kind = s.kind;
  started_at = s.started_at;
  leader = other_side s.leader;
  deck = deck_or (draw s.deck pick) s.deck;
  current_prompt = prompt_or (draw s.deck pick);
  rounds = s.rounds + 1;
  connection = s.connection;
  degraded_at = s.degraded_at;
}

abbrev pub degraded : LiveSession → String → LiveSession
degraded s at = record {
  kind = s.kind;
  started_at = s.started_at;
  leader = s.leader;
  deck = s.deck;
  current_prompt = s.current_prompt;
  rounds = s.rounds;
  connection = lost;
  degraded_at = some at;
}

-- `degradeToAsync`, with `none` for `needs_live_camera`; the note for the screen is left out.
unfoldable pub degrade_to_async : LiveSession → String → Option LiveSession
degrade_to_async s at = elim (game_of s.kind) [
  | none ↦ none
  | some g ↦ if g.degrades_to_async then some (degraded s at) else none
]

abbrev pub is_degraded : LiveSession → Bool
is_degraded s = elim s.degraded_at [ none ↦ false | some t ↦ true ]
