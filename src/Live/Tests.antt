-- ===== src/Live/Tests.antt =====
-- The theorems on live.ts at concrete sessions.
use olive_branch.Prelude.{ℕ, ◌≡◌, refl, true, some, List, [], ◌∷◌, map, to_lower}
use olive_branch.Live.Games.{Side, side_a, side_b, twenty_questions, i_spy}
use olive_branch.Live.Decks.{LiveSession, start_live, new_deck, shuffle_from}
use olive_branch.Live.Rounds.{HasCard, play_rounds, start_live-HasCard}
use olive_branch.Live.Pictionary.{new_pictionary, attempts, guess_drawing}

-- Every card is swapped with the first.
abbrev to_front : ℕ → ℕ
to_front i = 0

shuffled :
    (new_deck i_spy to_front).remaining
    ≡ "something behind me that is old" ∷ "something you gave me"
      ∷ "something in your room that is round" ∷ "something I have had since before you were born"
      ∷ "something in my room that is blue" ∷ []
unfolding new_deck shuffle_from
shuffled = refl

start_live-HasCard_example :
    (s : LiveSession) × (start_live twenty_questions side_a "t" to_front ≡ some s)
    × HasCard (play_rounds s (to_front ∷ to_front ∷ []))
    × ((play_rounds s (to_front ∷ to_front ∷ [])).rounds ≡ 2)
    × ((play_rounds s (to_front ∷ to_front ∷ [])).leader ≡ side_a)
start_live-HasCard_example =
    start_live-HasCard twenty_questions side_a "t" to_front (to_front ∷ to_front ∷ [])

abbrev ascii_lower : List ℕ → List ℕ
ascii_lower = map to_lower

-- The word is CAT; the drawer tries first, and then the other side, with blanks around the word.
abbrev tries : List (Side × List ℕ)
tries =
    (side_a, b'c' ∷ b'a' ∷ b't' ∷ [])
    ∷ (side_b, b'd' ∷ b'o' ∷ b'g' ∷ [])
    ∷ (side_b, 0xA0 ∷ b'C' ∷ b'a' ∷ b't' ∷ b' ' ∷ [])
    ∷ (side_b, b'd' ∷ b'o' ∷ b'g' ∷ [])
    ∷ []

cat_is_guessed :
    (attempts ascii_lower
      (new_pictionary ascii_lower (b'C' ∷ b'A' ∷ b'T' ∷ []) side_a)
      tries).solved
    ≡ true
unfolding attempts guess_drawing
cat_is_guessed = refl
