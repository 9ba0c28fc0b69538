-- ===== src/Live/Rounds.antt =====
-- The rounds of live.ts: the cards of a session and the leader.
use olive_branch.Prelude.{
  ℕ, ◌+◌, ◌-◌, ◌≤◌, ◌<◌, String, ◌≡◌, refl, Bool, true, Option, none, some, some-injective, List,
  [], ◌∷◌, ◌++◌, length, count, str_eq, eq_iff, arith,
}
use olive_branch.Live.Games.{
  Side, LiveKind, LiveGame, simon_says, copy_me, freeze_dance, charades, i_spy, show_me,
  twenty_questions, would_you_rather, two_truths, pictionary, prompts_of, game_of,
}
use olive_branch.Live.Decks.{
  DeckState, Drawn, new_deck, first_card, draw_from, draw, LiveSession, started, start_live,
  other_side, next_round,
}
use olive_branch.Live.Shuffling.{count-shuffle_from}

count-append :
    {A : Type 0} (p : A → Bool) (xs ys : List A) → count p (xs ++ ys) ≡ count p xs + count p ys
count-append p [] ys = omega arith
count-append p (x ∷ xs) ys = omega (arith, count-append p xs ys)

-- The cards that are left and those that are drawn are the cards of the kind, each as often.
abbrev pub IsWhole : LiveKind → List String → List String → Type 0
IsWhole kind remaining drawn =
    (p : String → Bool) → count p remaining + count p drawn ≡ count p (prompts_of kind)

has_prompts : (kind : LiveKind) → 0 < count (λ x. true) (prompts_of kind)
has_prompts simon_says = omega arith
has_prompts copy_me = omega arith
has_prompts freeze_dance = omega arith
has_prompts charades = omega arith
has_prompts i_spy = omega arith
has_prompts show_me = omega arith
has_prompts twenty_questions = omega arith
has_prompts would_you_rather = omega arith
has_prompts two_truths = omega arith
has_prompts pictionary = omega arith

-- A card of the kind, drawn from a deck that stays whole.
abbrev IsDrawn : LiveKind → Option Drawn → Type 0
IsDrawn kind d =
    (x : Drawn) × (d ≡ some x)
    × (x.deck.kind ≡ kind)
    × IsWhole kind x.deck.remaining x.deck.drawn
    × (1 ≤ count (str_eq x.prompt) (prompts_of kind))

count_self : (c : String) (rest : List String) → 1 ≤ count (str_eq c) (c ∷ rest)
count_self c rest = ground (arith, (eq_iff c c).1 refl)

first_card-IsDrawn :
    (kind : LiveKind) (cards : List String)
    → IsWhole kind cards []
    → IsDrawn kind (first_card kind cards)
first_card-IsDrawn kind [] w =
    absurd (let e = w (λ x. true) in let h = has_prompts kind in omega arith)
first_card-IsDrawn kind (c ∷ cs) w = (
  record { prompt = c; deck = record { kind = kind; remaining = cs; drawn = c ∷ [] } },
  refl,
  refl,
  λ p. let e = w p in omega arith,
  let e = w (str_eq c) in let h = count_self c cs in omega arith,
)

new_deck-IsWhole : (kind : LiveKind) (pick : ℕ → ℕ) → IsWhole kind (new_deck kind pick).remaining []
unfolding new_deck
new_deck-IsWhole kind pick p =
    omega (arith, count-shuffle_from pick p (length (prompts_of kind) - 1) (prompts_of kind))

draw_from-IsDrawn :
    (kind : LiveKind) (remaining drawn : List String) (pick : ℕ → ℕ)
    → IsWhole kind remaining drawn
    → IsDrawn kind (draw_from kind remaining drawn pick)
draw_from-IsDrawn kind [] [] pick w =
    absurd (let e = w (λ x. true) in let h = has_prompts kind in omega arith)
draw_from-IsDrawn kind [] (d ∷ ds) pick w =
    first_card-IsDrawn kind (new_deck kind pick).remaining (new_deck-IsWhole kind pick)
draw_from-IsDrawn kind (c ∷ cs) ds pick w = (
  record { prompt = c; deck = record { kind = kind; remaining = cs; drawn = ds ++ c ∷ [] } },
  refl,
  refl,
  λ p. let e = w p in let a = count-append p ds (c ∷ []) in omega arith,
  let e = w (str_eq c) in let h = count_self c cs in omega arith,
)

-- The deck is whole and of the session's kind, and a card of that kind is shown.
pub record HasCard (s : LiveSession) : Type 0 where
  pub same_kind : s.deck.kind ≡ s.kind
  pub whole : IsWhole s.kind s.deck.remaining s.deck.drawn
  pub shown :
      (c : String) × (s.current_prompt ≡ some c) × (1 ≤ count (str_eq c) (prompts_of s.kind))

next_round-HasCard : (s : LiveSession) (pick : ℕ → ℕ) → HasCard s → HasCard (next_round s pick)
unfolding next_round draw
next_round-HasCard s pick h =
    let (x, e, kind, whole, card) =
      draw_from-IsDrawn s.kind s.deck.remaining s.deck.drawn pick h.whole in
    let e' : draw_from s.deck.kind s.deck.remaining s.deck.drawn pick ≡ some x = rw h.same_kind e in
    rw e' (record { same_kind = kind; whole = whole; shown = (x.prompt, refl, card) })

started-HasCard :
    (kind : LiveKind) (leader : Side) (at : String) (deck : DeckState) (d : Option Drawn)
    → IsDrawn kind d
    → HasCard (started kind leader at deck d)
started-HasCard kind leader at deck none h = absurd (let e = h.1 in cc)
started-HasCard kind leader at deck (some y) (x, e, same, whole, card) =
    rw (some-injective _ _ e)
      (record { same_kind = same; whole = whole; shown = (x.prompt, refl, card) })

-- The session after rounds with these random numbers.
unfoldable pub play_rounds : LiveSession → List (ℕ → ℕ) → LiveSession
play_rounds s [] = s
play_rounds s (pick ∷ picks) = play_rounds (next_round s pick) picks

abbrev pub leader_after : Side → List (ℕ → ℕ) → Side
leader_after leader [] = leader
leader_after leader (pick ∷ picks) = leader_after (other_side leader) picks

rounds-HasCard :
    (s : LiveSession) (picks : List (ℕ → ℕ))
    → HasCard s
    → HasCard (play_rounds s picks)
      × ((play_rounds s picks).rounds ≡ s.rounds + length picks)
      × ((play_rounds s picks).leader ≡ leader_after s.leader picks)
unfolding play_rounds next_round
rounds-HasCard s [] h = (h, omega arith, refl)
rounds-HasCard s (pick ∷ picks) h =
    let (card, count, leader) =
      rounds-HasCard (next_round s pick) picks (next_round-HasCard s pick h) in
    (card, omega arith, leader)

listed : (kind : LiveKind) → (g : LiveGame) × (game_of kind ≡ some g)
listed simon_says = (_, refl)
listed copy_me = (_, refl)
listed freeze_dance = (_, refl)
listed charades = (_, refl)
listed i_spy = (_, refl)
listed show_me = (_, refl)
listed twenty_questions = (_, refl)
listed would_you_rather = (_, refl)
listed two_truths = (_, refl)
listed pictionary = (_, refl)

-- Whatever the random numbers, a session starts, shows a card of its game in every round, and never
-- runs out: the cards left and those drawn are always the whole deck, each card as often. The leader
-- alternates, and the rounds are counted.
pub start_live-HasCard :
    (kind : LiveKind) (leader : Side) (at : String) (pick : ℕ → ℕ) (picks : List (ℕ → ℕ))
    → (s : LiveSession) × (start_live kind leader at pick ≡ some s)
      × HasCard (play_rounds s picks)
      × ((play_rounds s picks).rounds ≡ length picks)
      × ((play_rounds s picks).leader ≡ leader_after leader picks)
unfolding start_live
start_live-HasCard kind leader at pick picks =
    let (g, known) = listed kind in
    let deck = new_deck kind pick in
    let card : IsDrawn kind (draw deck pick) =
      unfold draw in draw_from-IsDrawn kind deck.remaining [] pick (new_deck-IsWhole kind pick) in
    let first = started kind leader at deck (draw deck pick) in
    let (has, count, turn) =
      rounds-HasCard first picks (started-HasCard kind leader at deck (draw deck pick) card) in
    (first, rw (known, start_live) refl, has, omega arith, turn)
