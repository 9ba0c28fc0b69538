-- ===== src/Games/Catalogue.antt =====
-- games.ts: the catalogue of games and of the handicaps that a child may impose.
use olive_branch.Prelude.{
  ℕ, Bool, true, false, Option, none, some, List, [], ◌∷◌, String, ◌==◌, leb, find, any, filterb,
  str_eq,
}

pub data Side : Type 0 where
  a b : Side

pub data GameKind : Type 0 where
  tictactoe dotsboxes memory story : GameKind

pub record Handicap : Type 0 where
  pub id : String
  pub label : String

pub record GameMeta : Type 0 where
  pub kind : GameKind
  pub title : String
  pub min_age : ℕ
  pub competitive : Bool
  pub handicaps : List Handicap
  pub blurb : String

abbrev pub game_number : GameKind → ℕ
game_number tictactoe = 0
game_number dotsboxes = 1
game_number memory = 2
game_number story = 3

abbrev pub same_game : GameKind → GameKind → Bool
same_game k l = game_number k == game_number l

abbrev pub same_side : Side → Side → Bool
same_side a a = true
same_side b b = true
same_side _ _ = false

abbrev pub child_first : Handicap
child_first = record { id = "child_first"; label = "I always go first" }

abbrev pub catalogue : List GameMeta
catalogue =
    record {
      kind = tictactoe;
      title = "Three in a row";
      min_age = 4;
      competitive = true;
      handicaps =
          record { id = "no_centre"; label = "Dad can't use the middle square" } ∷ child_first ∷ [];
      blurb = "A five-year-old can genuinely win this one.";
    }
    ∷ record {
      kind = dotsboxes;
      title = "Dots and boxes";
      min_age = 5;
      competitive = true;
      handicaps =
          record { id = "start_behind"; label = "Dad starts two boxes behind" } ∷ child_first ∷ [];
      blurb = "Simplest rules of any deep game.";
    }
    ∷ record {
      kind = memory;
      title = "Our photos";
      min_age = 4;
      competitive = true;
      handicaps = record { id = "extra_pairs"; label = "Dad needs two more pairs than me" } ∷ [];
      blurb = "Made from your own photos, not stock pictures.";
    }
    ∷ record {
      kind = story;
      title = "Make up a story";
      min_age = 5;
      competitive = false;
      handicaps = [];
      blurb = "One line each. Nobody wins.";
    }
    ∷ []

unfoldable pub for_age : ℕ → List GameMeta
for_age age = filterb (λ g. leb g.min_age age) catalogue

-- `CATALOGUE.find(m => m.kind === kind)`, which the source asserts to succeed.
unfoldable pub meta_of : GameKind → Option GameMeta
meta_of k = find (λ m. same_game m.kind k) catalogue

-- Whether the game offers a handicap with this id.
unfoldable pub offers : GameKind → String → Bool
offers k id = elim (meta_of k) [ none ↦ false | some m ↦ any (λ h. str_eq h.id id) m.handicaps ]
