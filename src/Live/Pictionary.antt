-- ===== src/Live/Pictionary.antt =====
-- live.ts: the drawing game. A text is the list of its code units. `trim` is that of JavaScript: it takes
-- the white space and the line ends of ECMAScript off both ends. `toLowerCase`, by the tables of
-- Unicode, is the parameter `lower` on whole texts.
use olive_branch.Prelude.{
  ℕ, Bool, true, false, not, ◌&&◌, ◌||◌, List, [], ◌∷◌, ◌++◌, leb, ◌==◌, if◌then◌else◌, non_empty,
}
use olive_branch.Live.Games.{Side, side_a, side_b}

-- WhiteSpace and LineTerminator of ECMAScript: tab to carriage return, the space, the no-break space,
-- the other spaces of Unicode, the line and the paragraph separator, and the byte order mark.
abbrev pub is_space : ℕ → Bool
is_space c =
    (leb 9 c && leb c 13)
    || (c == 0x20)
    || (c == 0xA0)
    || (c == 0x1680)
    || (leb 0x2000 c && leb c 0x200A)
    || (c == 0x2028)
    || (c == 0x2029)
    || (c == 0x202F)
    || (c == 0x205F)
    || (c == 0x3000)
    || (c == 0xFEFF)

abbrev pub trim_start : List ℕ → List ℕ
trim_start [] = []
trim_start (c ∷ cs) = let rest = trim_start cs in if is_space c then rest else c ∷ cs

abbrev pub trim_end : List ℕ → List ℕ
trim_end [] = []
trim_end (c ∷ cs) =
    let rest = trim_end cs in if is_space c && not (non_empty rest) then [] else c ∷ rest

abbrev pub trim : List ℕ → List ℕ
trim text = trim_end (trim_start text)

abbrev pub same_text : List ℕ → List ℕ → Bool
same_text [] [] = true
same_text (x ∷ xs) (y ∷ ys) = (x == y) && same_text xs ys
same_text _ _ = false

abbrev pub same_side : Side → Side → Bool
same_side side_a side_a = true
same_side side_b side_b = true
same_side _ _ = false

pub record Guess : Type 0 where
  pub side : Side
  pub text : List ℕ
  pub correct : Bool

pub record Pictionary : Type 0 where
  pub word : List ℕ
  pub drawer : Side
  pub guesses : List Guess
  pub solved : Bool

pub data GuessError : Type 0 where
  already_solved drawer_cannot_guess empty_guess : GuessError

pub data GuessResult : Type 0 where
  guessed : Pictionary → Bool → GuessResult
  refused : GuessError → GuessResult

-- The game after an attempt, which an error leaves as it was.
abbrev pub state_after : Pictionary → GuessResult → Pictionary
state_after p (guessed q correct) = q
state_after p (refused why) = p

module _ (lower : List ℕ → List ℕ) where
  abbrev pub new_pictionary : List ℕ → Side → Pictionary
  new_pictionary word drawer = record {
    word = lower word;
    drawer = drawer;
    guesses = [];
    solved = false;
  }

  abbrev pub is_correct : Pictionary → List ℕ → Bool
  is_correct p text = same_text (lower (trim text)) p.word

  abbrev pub with_guess : Pictionary → Side → List ℕ → Pictionary
  with_guess p side text = record {
    word = p.word;
    drawer = p.drawer;
    guesses =
        p.guesses ++ record { side = side; text = trim text; correct = is_correct p text } ∷ [];
    solved = is_correct p text;
  }

  unfoldable pub guess_drawing : Pictionary → Side → List ℕ → GuessResult
  guess_drawing p side text =
      if p.solved
      then refused already_solved
      else (if same_side side p.drawer
          then refused drawer_cannot_guess
          else (if not (non_empty (trim text))
              then refused empty_guess
              else guessed (with_guess p side text) (is_correct p text)))

  unfoldable pub attempts : Pictionary → List (Side × List ℕ) → Pictionary
  unfolding guess_drawing
  attempts p [] = p
  attempts p ((side, text) ∷ rest) = attempts (state_after p (guess_drawing p side text)) rest
