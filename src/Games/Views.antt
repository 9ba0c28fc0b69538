-- ===== src/Games/Views.antt =====
-- games.ts: what a child is shown, the offer of a handicap, and the story that is kept. The lower case
-- of a label, by `toLowerCase`, is a parameter.
use olive_branch.Prelude.{
  ℕ, zero, suc, ◌||◌, ◌-◌, Bool, true, false, not, ◌&&◌, Option, none, some, List, [], ◌∷◌, String,
  ◌==◌, length, filterb, all, find, if◌then◌else◌, str_eq, ◌≡◌, refl, ◌≢◌, inl, inr, arith,
  Option-cases, some-injective, sym, ap,
}
use Prim.Native.String.{◌++◌ as ◌++s◌}
use olive_branch.Games.Catalogue.{
  Side, a, b, GameKind, tictactoe, dotsboxes, memory, story, GameMeta, Handicap, meta_of,
}
use olive_branch.Games.Runtime.{GameState, GameOutcome, won, Scores, is_over}

pub record Tally : Type 0 where
  pub yours : ℕ
  pub theirs : ℕ

pub record ChildGameView : Type 0 where
  pub title : String
  pub your_turn : Bool
  pub handicap_banner : Option String
  pub boxes_each : Option Tally
  pub finished : Bool
  pub closing : Option String

abbrev pub is_story : GameKind → Bool
is_story story = true
is_story _ = false

abbrev pub is_child_side : Side → Bool
is_child_side a = true
is_child_side b = false

-- The handicap of the game with the given id.
abbrev pub handicap_of : GameMeta → Option String → Option Handicap
handicap_of m none = none
handicap_of m (some id) = find (λ h. str_eq h.id id) m.handicaps

abbrev pub banner : (String → String) → Option Handicap → Option String
banner lower none = none
banner lower (some h) = some ("Dad's playing the hard way — " ++s lower h.label)

module _ {B P : Type 0} (lower : String → String) where
  -- `childView` with the game's entry in the catalogue.
  unfoldable pub view_of : GameMeta → GameState B P → ChildGameView
  view_of m g = record {
    title = m.title;
    your_turn = is_child_side g.turn && not (is_over g.outcome);
    handicap_banner = banner lower (handicap_of m g.handicap);
    boxes_each =
        if m.competitive && not (is_over g.outcome)
        then some (record { yours = g.scores.a; theirs = g.scores.b })
        else none;
    finished = is_over g.outcome;
    closing =
        if not (is_over g.outcome)
        then none
        else if is_story g.kind
        then some "What a story."
        else some "Good game.";
  }

  -- The view, none where the source would fail at a missing entry.
  unfoldable pub child_view : GameState B P → Option ChildGameView
  child_view g = elim (meta_of g.kind) [ none ↦ none | some m ↦ some (view_of m g) ]

abbrev pub streak_before_offer : ℕ
streak_before_offer = 3

-- An outcome of a past game, none for a game that has none.
abbrev pub is_decided : Option GameOutcome → Bool
is_decided (some (won s)) = true
is_decided _ = false

abbrev pub is_loss : Option GameOutcome → Bool
is_loss (some (won b)) = true
is_loss _ = false

-- `xs.slice(-k)`: the first `length xs - k` elements are dropped.
abbrev pub drop {ℓ} : {A : Type ℓ} → ℕ → List A → List A
drop zero xs = xs
drop (suc n) [] = []
drop (suc n) (x ∷ xs) = drop n xs

abbrev pub last_ones {ℓ} : {A : Type ℓ} → ℕ → List A → List A
last_ones k xs = drop (length xs - k) xs

abbrev pub is_competitive : Option GameMeta → Bool
is_competitive none = false
is_competitive (some m) = m.competitive

unfoldable pub should_offer_handicap : List (Option GameOutcome) → GameKind → Bool
should_offer_handicap recent kind =
    let recent_ones = last_ones streak_before_offer (filterb is_decided recent) in
    if not (is_competitive (meta_of kind))
    then false
    else (length recent_ones == streak_before_offer) && all is_loss recent_ones

pub record HandicapOffer : Type 0 where
  pub prompt : String
  pub options : List Handicap

unfoldable pub handicap_offer : GameKind → Option HandicapOffer
handicap_offer kind = elim (meta_of kind) [
  | none ↦ none
  | some m ↦ some (record { prompt = "Want to make it harder for Dad?"; options = m.handicaps })
]

pub record StoryArtifact : Type 0 where
  pub title : String
  pub body : String

-- `join(' ')`
abbrev pub join_lines : List (Side × String) → String
join_lines [] = ""
join_lines (l ∷ []) = l.1
join_lines (l ∷ m ∷ ls) = l.1 ++s (" " ++s join_lines (m ∷ ls))

-- The artifact of a game of the kind `story`, whose board is its lines.
unfoldable pub story_artifact :
    {P : Type 0} → GameState (List (Side × String)) P → Option StoryArtifact
story_artifact g =
    if not (is_story g.kind) || (length g.board == 0)
    then none
    else some (record { title = "A story we made up"; body = join_lines g.board })

known : (k : GameKind) → meta_of k ≢ none
unfolding meta_of
known tictactoe h = cc
known dotsboxes h = cc
known memory h = cc
known story h = cc

tally-shown :
    (competitive over : Bool) (s : Scores) (t : Tally)
    → (if competitive && not over then some (record { yours = s.a; theirs = s.b }) else none)
      ≡ some t
    → (competitive ≡ true) × (t.yours ≡ s.a) × (t.theirs ≡ s.b)
tally-shown true true s t h = absurd (cc)
tally-shown false over s t h = absurd (cc)
tally-shown true false s t h =
    let same = some-injective _ _ h in
    (refl, sym (ap (λ x. x.yours) same), sym (ap (λ x. x.theirs) same))

competitive_kind :
    (k : GameKind) (m : GameMeta) → meta_of k ≡ some m → m.competitive ≡ true → k ≢ story
unfolding meta_of
competitive_kind story m h c q =
    let same = some-injective _ _ h in let never = ap (λ x. x.competitive) same in absurd (cc)
competitive_kind tictactoe m h c q = cc
competitive_kind dotsboxes m h c q = cc
competitive_kind memory m h c q = cc

module _ {B P : Type 0} (lower : String → String) where
  -- The view hides how a game ended.
  pub record HidesResult (g : GameState B P) (v : ChildGameView) : Type 0 where
    pub over :
        v.finished ≡ true → (v.boxes_each ≡ none) × (v.your_turn ≡ false) × (v.closing ≢ none)
    pub running : v.finished ≡ false → v.closing ≡ none
    pub tally :
        (t : Tally)
        → v.boxes_each ≡ some t
        → (t.yours ≡ g.scores.a) × (t.theirs ≡ g.scores.b) × (g.kind ≢ story)

  view_of-HidesResult :
      (m : GameMeta) (g : GameState B P)
      → meta_of g.kind ≡ some m
      → HidesResult g (view_of lower m g)
  unfolding view_of
  view_of-HidesResult m g found =
      let only = competitive_kind g.kind m found in
      record {
        over = λ h. ground arith;
        running = λ h. ground arith;
        tally = λ t h.
            let (competitive, yours, theirs) =
              tally-shown m.competitive (is_over g.outcome) g.scores t h in
            (yours, theirs, only competitive);
      }

  -- The view of a game that is over has closing words, no tally, and is not the child's turn; one that
  -- runs has no closing words; and a tally is only ever the running score of a game with sides. Every
  -- game has a view.
  pub child_view-HidesResult :
      (g : GameState B P) → (v : ChildGameView) × (child_view lower g ≡ some v) × HidesResult g v
  unfolding child_view
  child_view-HidesResult g = elim (Option-cases (meta_of g.kind)) [
    | inl e ↦ absurd (known g.kind e)
    | inr (m, e) ↦ (view_of lower m g, rw (e, child_view) refl, view_of-HidesResult m g e)
  ]
