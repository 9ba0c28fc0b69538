-- ===== src/Games/Counting.antt =====
-- Dots and boxes of games.ts: what the scores count.
use olive_branch.Prelude.{
  ℕ, suc, ◌+◌, Bool, true, false, Option, none, some, List, [], ◌∷◌, ◌≡◌, refl, arith, Bool-cases,
  inl, inr, subst,
}
use olive_branch.Games.Catalogue.{Side, a, b}
use olive_branch.Games.Runtime.{GameState, Scores, Played, accepted}
use olive_branch.Games.Boards.{
  Squares, Dots, on_entry, is_closed_box, claim_row, claim_rows, claim_boxes, add_score, with_line,
  dots_move, dots_rules,
}

-- The number of boxes of a row, and of all rows, that have an owner.
abbrev pub held_row : Squares → ℕ
held_row [] = 0
held_row (none ∷ row) = held_row row
held_row (some s ∷ row) = suc (held_row row)

abbrev pub held : List Squares → ℕ
held [] = 0
held (row ∷ rows) = held_row row + held rows

claim_row-held :
    (d : Dots) (side : Side) (r c : ℕ) (row : Squares)
    → held_row (claim_row d side r c row).0 ≡ held_row row + (claim_row d side r c row).1
claim_row-held d side r c [] = refl
claim_row-held d side r c (some s ∷ row) = omega (arith, claim_row-held d side r (suc c) row)
claim_row-held d side r c (none ∷ row) = elim (Bool-cases (is_closed_box d r c)) [
  | inl e ↦ simp e (omega (arith, claim_row-held d side r (suc c) row))
  | inr e ↦ simp e (claim_row-held d side r (suc c) row)
]

claim_rows-held :
    (d : Dots) (side : Side) (r : ℕ) (rows : List Squares)
    → held (claim_rows d side r rows).0 ≡ held rows + (claim_rows d side r rows).1
claim_rows-held d side r [] = refl
claim_rows-held d side r (row ∷ rows) =
    omega (arith, claim_row-held d side r 0 row, claim_rows-held d side (suc r) rows)

abbrev pub total : Scores → ℕ
total s = s.a + s.b

add_score-total : (s : Scores) (side : Side) (k : ℕ) → total (add_score s side k) ≡ total s + k
add_score-total s a k = omega arith
add_score-total s b k = omega arith

with_line-owner :
    (d : Dots) (at : Bool × ℕ × ℕ) (side : Side) → (with_line d at side).owner ≡ d.owner
unfolding with_line
with_line-owner d (true, r, c) side = refl
with_line-owner d (false, r, c) side = refl

on_entry-accepted :
    (e : Option (Option Side)) (p q : Played Dots) → on_entry e p ≡ accepted q → p ≡ q
on_entry-accepted none p q h = cc
on_entry-accepted (some (some s)) p q h = cc
on_entry-accepted (some none) p q h = cc

dots_move-total :
    (scores : Scores) (d : Dots) (side : Side)
    → total (dots_move scores d side).scores + held d.owner
      ≡ total scores + held (dots_move scores d side).board.owner
unfolding dots_move claim_boxes
dots_move-total scores d side = omega (
  arith,
  add_score-total scores side (claim_rows d side 0 d.owner).1,
  claim_rows-held d side 0 d.owner,
)

-- The points of both sides grow by exactly the boxes that find an owner: an accepted line changes
-- the sum of the scores and the number of owned boxes by the same amount.
pub dots_rules-counts :
    (g : GameState Dots (Bool × ℕ × ℕ)) (side : Side) (at : Bool × ℕ × ℕ) (p : Played Dots)
    → dots_rules g side at ≡ accepted p
    → total p.scores + held g.board.owner ≡ total g.scores + held p.board.owner
unfolding dots_rules
dots_rules-counts g side at p h =
    let same = on_entry-accepted _ _ p h in
    let line = with_line g.board at side in
    subst (λ o. total p.scores + held o ≡ total g.scores + held p.board.owner)
      (with_line-owner g.board at side)
      (subst (λ q. total q.scores + held line.owner ≡ total g.scores + held q.board.owner) same
        (dots_move-total g.scores line side))
