-- ===== src/Games/Boards.antt =====
-- games.ts: the rules of the games but that of the photos. A negative square or line is
-- out of range in the source, as one that is too large is here.
use olive_branch.Prelude.{
  ℕ, zero, suc, ◌+◌, Bool, true, false, not, ◌&&◌, Option, none, some, List, [], ◌∷◌, ◌++◌, String,
  ltb, leb, ◌==◌, length, if◌then◌else◌, get_elem?, all, str_eq,
}
use olive_branch.Games.Catalogue.{Side, a, b, same_side}
use olive_branch.Games.Runtime.{
  Setup, GameState, GameOutcome, won, draw, done, Scores, occupied, out_of_range, handicap_forbids,
  empty_contribution, Played, Verdict, accepted, rejected,
}

abbrev pub Squares : Type 0
Squares = List (Option Side)

-- `arr[i] = x`, for an index in range.
abbrev pub set_at {ℓ} : {A : Type ℓ} → List A → ℕ → A → List A
set_at [] i x = []
set_at (y ∷ ys) zero x = x ∷ ys
set_at (y ∷ ys) (suc i) x = y ∷ set_at ys i x

abbrev pub times {ℓ} : {A : Type ℓ} → ℕ → A → List A
times zero x = []
times (suc n) x = x ∷ times n x

-- Whether an entry of a row is a side; an entry out of range is not.
abbrev pub holder : Option (Option Side) → Option Side
holder none = none
holder (some s) = s

abbrev pub is_held : Option Side → Bool
is_held none = false
is_held (some s) = true

abbrev pub held_by : Side → Option Side → Bool
held_by s none = false
held_by s (some t) = same_side s t

abbrev pub has_handicap : Option String → String → Bool
has_handicap none id = false
has_handicap (some h) id = str_eq h id

-- Three in a row.

abbrev pub ttt_lines : List (ℕ × ℕ × ℕ)
ttt_lines =
    (0, 1, 2)
    ∷ (3, 4, 5)
    ∷ (6, 7, 8)
    ∷ (0, 3, 6)
    ∷ (1, 4, 7)
    ∷ (2, 5, 8)
    ∷ (0, 4, 8)
    ∷ (2, 4, 6)
    ∷ []

abbrev pub ttt_start : Squares
ttt_start = times 9 none

abbrev pub at_square : Squares → ℕ → Option Side
at_square board i = holder (get_elem? board i)

-- The side that holds all three squares of a line.
unfoldable pub line_owner : Squares → ℕ × ℕ × ℕ → Option Side
line_owner board (i, j, k) = elim (at_square board i) [
  | none ↦ none
  | some s ↦ if held_by s (at_square board j) && held_by s (at_square board k) then some s else none
]

unfoldable pub line_outcome : Squares → List (ℕ × ℕ × ℕ) → Option GameOutcome
line_outcome board [] = if all is_held board then some draw else none
line_outcome board (l ∷ ls) = elim (line_owner board l) [
  | none ↦ line_outcome board ls
  | some s ↦ some (won s)
]

unfoldable pub ttt_outcome : Squares → Option GameOutcome
ttt_outcome board = line_outcome board ttt_lines

unfoldable pub ttt_rules : GameState Squares ℕ → Side → ℕ → Verdict Squares
ttt_rules g side i =
    if ltb 8 i
    then rejected out_of_range
    else if is_held (at_square g.board i)
    then rejected occupied
    else if has_handicap g.handicap "no_centre" && (same_side side b && (i == 4))
    then rejected handicap_forbids
    else accepted (record {
      board = set_at g.board i (some side);
      scores = g.scores;
      outcome = ttt_outcome (set_at g.board i (some side));
      keep_turn = false;
    })

-- Dots and boxes.

pub record Dots : Type 0 where
  pub n : ℕ
  pub h : List Squares
  pub v : List Squares
  pub owner : List Squares

abbrev pub mat : ℕ → ℕ → List Squares
mat r c = times r (times c none)

abbrev pub dots_start : Dots
dots_start = record { n = 4; h = mat 4 3; v = mat 3 4; owner = mat 3 3 }

-- `grid[r]?.[c]`: none for `undefined`.
abbrev pub entry : List Squares → ℕ → ℕ → Option (Option Side)
entry grid r c = elim (get_elem? grid r) [ none ↦ none | some row ↦ get_elem? row c ]

abbrev pub drawn : List Squares → ℕ → ℕ → Bool
drawn grid r c = is_held (holder (entry grid r c))

abbrev pub draw_line : List Squares → ℕ → ℕ → Side → List Squares
draw_line grid r c side = elim (get_elem? grid r) [
  | none ↦ grid
  | some row ↦ set_at grid r (set_at row c (some side))
]

-- The four lines around the box are drawn.
abbrev pub is_closed_box : Dots → ℕ → ℕ → Bool
is_closed_box d r c =
    drawn d.h r c && (drawn d.h (r + 1) c && (drawn d.v r c && drawn d.v r (c + 1)))

-- The inner loop of `claimBoxes` from column `c`, over the rest of the row: the new owners and the
-- number of boxes claimed. The loops run over n - 1 rows and columns, which `owner` has.
abbrev pub claim_row : Dots → Side → ℕ → ℕ → Squares → Squares × ℕ
claim_row d side r c [] = ([], 0)
claim_row d side r c (some s ∷ row) =
    (some s ∷ (claim_row d side r (suc c) row).0, (claim_row d side r (suc c) row).1)
claim_row d side r c (none ∷ row) =
    let rest = claim_row d side r (suc c) row in
    if is_closed_box d r c then (some side ∷ rest.0, suc rest.1) else (none ∷ rest.0, rest.1)

abbrev pub claim_rows : Dots → Side → ℕ → List Squares → List Squares × ℕ
claim_rows d side r [] = ([], 0)
claim_rows d side r (row ∷ rows) =
    let first = claim_row d side r 0 row in
    let rest = claim_rows d side (suc r) rows in (first.0 ∷ rest.0, first.1 + rest.1)

unfoldable pub claim_boxes : Dots → Side → List Squares × ℕ
claim_boxes d side = claim_rows d side 0 d.owner

abbrev pub add_score : Scores → Side → ℕ → Scores
add_score s a k = record s { a = s.a + k }
add_score s b k = record s { b = s.b + k }

-- The outcome of a finished count; the child's side is given `head` points.
abbrev pub compare_scores : Scores → ℕ → GameOutcome
compare_scores s head =
    if s.a + head == s.b then draw else if ltb s.b (s.a + head) then won a else won b

-- The state of the lines with the new one, before boxes are claimed.
unfoldable pub with_line : Dots → Bool × ℕ × ℕ → Side → Dots
with_line d (true, r, c) side = record d { h = draw_line d.h r c side }
with_line d (false, r, c) side = record d { v = draw_line d.v r c side }

unfoldable pub dots_move : Scores → Dots → Side → Played Dots
dots_move scores d side =
    let claimed = claim_boxes d side in
    let next = add_score scores side claimed.1 in
    let full = all (all is_held) claimed.0 in
    record {
      board = record d { owner = claimed.0 };
      scores = next;
      outcome = if full then some (compare_scores next 0) else none;
      keep_turn = ltb 0 claimed.1 && not full;
    }

-- The tests on the entry of the grid that the move names.
abbrev pub on_entry : Option (Option Side) → Played Dots → Verdict Dots
on_entry none p = rejected out_of_range
on_entry (some (some s)) p = rejected occupied
on_entry (some none) p = accepted p

unfoldable pub dots_rules : GameState Dots (Bool × ℕ × ℕ) → Side → Bool × ℕ × ℕ → Verdict Dots
dots_rules g side at =
    on_entry (entry (if at.0 then g.board.h else g.board.v) at.1 at.2)
      (dots_move g.scores (with_line g.board at side) side)

-- The board of a game that takes no seed.
abbrev pub seedless : {B : Type 0} → B → Setup B
seedless board = record { start = λ seed. board; reseed = λ b. none }

-- A story. The text's `trim` is a parameter.

module _ (trim : String → String) where
  abbrev pub is_blank : String → Bool
  is_blank String.[] = true
  is_blank (String.◌∷◌ c s) = false

  unfoldable pub story_rules :
      GameState (List (Side × String)) String → Side → String → Verdict (List (Side × String))
  story_rules g side at =
      let lines = g.board ++ (side, trim at) ∷ [] in
      if is_blank (trim at)
      then rejected empty_contribution
      else accepted (record {
        board = lines;
        scores = g.scores;
        outcome = if leb 20 (length lines) then some done else none;
        keep_turn = false;
      })
