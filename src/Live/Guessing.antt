-- ===== src/Live/Guessing.antt =====
-- The guesses of the drawing game of live.ts.
use olive_branch.Prelude.{ℕ, ◌≡◌, Bool, true, false, List, [], ◌∷◌, non_empty, All}
use olive_branch.Live.Games.{Side}
use olive_branch.Live.Pictionary.{
  trim, same_text, same_side, Guess, Pictionary, GuessResult, guessed, refused, GuessError,
  is_correct, with_guess,
}

-- Only the last guess may be correct, and the game is solved exactly when it is.
abbrev pub Ends : List Guess → Bool → Type 0
Ends [] solved = solved ≡ false
Ends (g ∷ []) solved = solved ≡ g.correct
Ends (g ∷ h ∷ rest) solved = (g.correct ≡ false) × Ends (h ∷ rest) solved

module _ (lower : List ℕ → List ℕ) where
  pub record IsPlayed (word : List ℕ) (drawer : Side) (p : Pictionary) : Type 0 where
    pub word_kept : p.word ≡ lower word
    pub drawer_kept : p.drawer ≡ drawer
    pub ends : Ends p.guesses p.solved
    pub not_drawer :
        All
          (λ (g : Guess).
            (same_side g.side p.drawer ≡ false)
            × (non_empty g.text ≡ true)
            × (g.correct ≡ same_text (lower g.text) p.word))
          p.guesses

  -- Either the attempt is refused, or the game is not solved, the guesser does not draw, and the guess is
  -- added.
  data Attempt (p : Pictionary) (side : Side) (text : List ℕ) : GuessResult → Type 0 where
    stays : (why : GuessError) → Attempt p side text (refused why)
    adds :
        p.solved ≡ false
        → same_side side p.drawer ≡ false
        → non_empty (trim text) ≡ true
        → Attempt p side text (guessed (with_guess lower p side text) (is_correct lower p text))
