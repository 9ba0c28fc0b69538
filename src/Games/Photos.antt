-- ===== src/Games/Photos.antt =====
-- games.ts: the game of the photos, and how newGame and takeBack set it up. A negative index is out of
-- range in the source, as one that is too large is here.
use olive_branch.Prelude.{
  ℕ, Bool, true, false, not, ◌&&◌, ◌||◌, Option, none, some, List, [], ◌∷◌, ◌++◌, String, leb, ◌==◌,
  length, if◌then◌else◌, get_elem?, any, str_eq, or_else,
}
use olive_branch.Games.Catalogue.{Side}
use olive_branch.Games.Runtime.{
  Setup, GameState, occupied, out_of_range, Played, Verdict, accepted, rejected,
}
use olive_branch.Games.Boards.{has_handicap, add_score, compare_scores}

pub record Photos : Type 0 where
  pub deck : List String
  pub revealed : List ℕ
  pub matched : List ℕ
  pub owner : List (ℕ × Side)

abbrev pub photos_start : List String → Photos
photos_start photos = record { deck = photos ++ photos; revealed = []; matched = []; owner = [] }

abbrev pub default_photos : List String
default_photos = "dog" ∷ "house" ∷ "beach" ∷ "drawing" ∷ "cake" ∷ "bike" ∷ []

abbrev pub has_photo : List String → String → Bool
has_photo photos x = any (λ p. str_eq p x) photos

-- `[...new Set(d)]`, behind photos that were seen.
unfoldable pub dedupe_from : List String → List String → List String
dedupe_from seen [] = []
dedupe_from seen (x ∷ xs) =
    let old = dedupe_from seen xs in
    let new = x ∷ dedupe_from (x ∷ seen) xs in if has_photo seen x then old else new

abbrev pub dedupe : List String → List String
dedupe deck = dedupe_from [] deck

abbrev pub photos_setup : Setup Photos
photos_setup = record {
  start = λ seed. photos_start (or_else seed default_photos);
  reseed = λ p. some (dedupe p.deck);
}

abbrev pub same_photo : Option String → Option String → Bool
same_photo (some x) (some y) = str_eq x y
same_photo none none = true
same_photo _ _ = false

abbrev pub includes_number : List ℕ → ℕ → Bool
includes_number xs i = any (λ x. x == i) xs

-- The turn of a second photo: the pair is taken or turned back.
unfoldable pub turn_pair : GameState Photos ℕ → Side → ℕ → ℕ → Played Photos
turn_pair g side x y =
    let p = g.board in
    let hit = same_photo (get_elem? p.deck x) (get_elem? p.deck y) in
    let matched = if hit then p.matched ++ x ∷ y ∷ [] else p.matched in
    let scores = if hit then add_score g.scores side 1 else g.scores in
    let over = length matched == length p.deck in
    record {
      board = record p {
        revealed = [];
        matched = matched;
        owner = if hit then (y, side) ∷ (x, side) ∷ p.owner else p.owner;
      };
      scores = scores;
      outcome =
          if over
          then some (compare_scores scores (if has_handicap g.handicap "extra_pairs" then 2 else 0))
          else none;
      keep_turn = hit && not over;
    }

-- The first photo of a pair stays up, and the turn stays.
abbrev pub turn_first : GameState Photos ℕ → List ℕ → Played Photos
turn_first g few = record {
  board = record g.board { revealed = few };
  scores = g.scores;
  outcome = g.outcome;
  keep_turn = true;
}

unfoldable pub turned : GameState Photos ℕ → Side → List ℕ → Verdict Photos
turned g side [] = accepted (turn_first g [])
turned g side (x ∷ []) = accepted (turn_first g (x ∷ []))
turned g side (x ∷ y ∷ rest) = accepted (turn_pair g side x y)

unfoldable pub memory_rules : GameState Photos ℕ → Side → ℕ → Verdict Photos
memory_rules g side i =
    if leb (length g.board.deck) i
    then rejected out_of_range
    else if includes_number g.board.matched i || includes_number g.board.revealed i
    then rejected occupied
    else turned g side (g.board.revealed ++ i ∷ [])
