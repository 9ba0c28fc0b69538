-- ===== src/Games/Tests.antt =====
-- The theorems on games.ts at concrete games.
use olive_branch.Prelude.{
  ℕ, ◌+◌, String, ◌≡◌, refl, Bool, true, none, some, List, [], ◌∷◌, ◌++◌, subst, sym,
}
use olive_branch.Games.Catalogue.{a, memory, dotsboxes}
use olive_branch.Games.Runtime.{
  GameState, new_game, impose, seeded, play, played, take_back, accepted,
}
use olive_branch.Games.Boards.{Dots, dots_start, dots_rules, dots_move, with_line}
use olive_branch.Games.Photos.{Photos, photos_start, photos_setup, memory_rules, dedupe_from}
use olive_branch.Games.Takeback.{Reachable, begun, moved, take_back-play}
use olive_branch.Games.Restart.{memory-Restarts}
use olive_branch.Games.Counting.{held, total, dots_rules-counts}

abbrev photos : List String
photos = "a" ∷ "b" ∷ []

abbrev start : GameState Photos ℕ
start = record {
  kind = memory;
  id = "m";
  turn = a;
  moves = [];
  outcome = none;
  handicap = none;
  board = photos_start photos;
  scores = record { a = 0; b = 0 };
  turn_budget_hours = 8;
}

-- One photo is up.
abbrev one_up : GameState Photos ℕ
one_up = record start {
  moves = record { side = a; at = 0; voice = none; seq = 0 } ∷ [];
  board = record (photos_start photos) { revealed = 0 ∷ [] };
}

-- The second of the pair is found, and the turn stays.
abbrev pair_found : GameState Photos ℕ
pair_found = record one_up {
  moves =
      record { side = a; at = 0; voice = none; seq = 0 }
      ∷ record { side = a; at = 2; voice = none; seq = 1 }
      ∷ [];
  board = record {
    deck = photos ++ photos;
    revealed = [];
    matched = 0 ∷ 2 ∷ [];
    owner = (2, a) ∷ (0, a) ∷ [];
  };
  scores = record { a = 1; b = 0 };
}

begins : impose none (seeded photos_setup memory "m" (some photos)) ≡ start
unfolding impose new_game
begins = refl

unhandicapped : (impose none (seeded {P = ℕ} photos_setup memory "m" (some photos))).handicap ≡ none
unfolding impose new_game
unhandicapped = refl

first_photo : play memory_rules start a 0 none ≡ played one_up
unfolding play olive_branch.Games.Runtime.recorded memory_rules olive_branch.Games.Photos.turned
first_photo = refl

second_photo : play memory_rules one_up a 2 none ≡ played pair_found
unfolding play olive_branch.Games.Runtime.recorded memory_rules olive_branch.Games.Photos.turned
    olive_branch.Games.Photos.turn_pair
second_photo = refl

reached : Reachable memory_rules (impose none (seeded photos_setup memory "m" (some photos))) one_up
reached =
    subst (λ s. Reachable memory_rules s one_up) (sym begins) (moved a 0 none begun first_photo)

take_back-play_example : take_back memory_rules photos_setup pair_found none ≡ played one_up
take_back-play_example =
    take_back-play memory_rules photos_setup memory "m" (some photos) none none one_up pair_found a
      2 none unhandicapped (memory-Restarts memory "m" photos none (refl, (refl, tt))) reached
      second_photo

-- Where a photo stands twice among the photos of a game, the takeback has a smaller deck.
deck_shrinks :
    (photos_setup.start (photos_setup.reseed (photos_start ("a" ∷ "a" ∷ [])))).deck ≡ "a" ∷ "a" ∷ []
unfolding dedupe_from
deck_shrinks = refl

abbrev dots : GameState Dots (Bool × ℕ × ℕ)
dots = record {
  kind = dotsboxes;
  id = "d";
  turn = a;
  moves = [];
  outcome = none;
  handicap = none;
  board = dots_start;
  scores = record { a = 0; b = 0 };
  turn_budget_hours = 8;
}

line :
    dots_rules dots a (true, 0, 0)
    ≡ accepted (dots_move dots.scores (with_line dots.board (true, 0, 0) a) a)
unfolding dots_rules
line = refl

dots_rules-counts_example :
    total (dots_move dots.scores (with_line dots.board (true, 0, 0) a) a).scores
      + held dots.board.owner
    ≡ total dots.scores
      + held (dots_move dots.scores (with_line dots.board (true, 0, 0) a) a).board.owner
dots_rules-counts_example =
    dots_rules-counts dots a (true, 0, 0)
      (dots_move dots.scores (with_line dots.board (true, 0, 0) a) a) line
