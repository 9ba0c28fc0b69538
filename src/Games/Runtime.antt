-- ===== src/Games/Runtime.antt =====
-- games.ts: the state of a game, the handicap, a move, and the takeback by replay.
use olive_branch.Prelude.{
  ℕ, Bool, true, false, not, Option, none, some, List, [], ◌∷◌, ◌++◌, String, leb, length,
  if◌then◌else◌, str_eq,
}
use olive_branch.Games.Catalogue.{Side, a, b, GameKind, same_side, offers}

pub record VoiceNote : Type 0 where
  pub artifact_id : String
  pub duration_ms : ℕ

pub record Move (P : Type 0) : Type 0 where
  pub side : Side
  pub at : P
  pub voice : Option VoiceNote
  pub seq : ℕ

pub data GameOutcome : Type 0 where
  won : Side → GameOutcome
  draw done : GameOutcome

pub record Scores : Type 0 where
  pub a : ℕ
  pub b : ℕ

pub record GameState (B P : Type 0) : Type 0 where
  pub kind : GameKind
  pub id : String
  pub turn : Side
  pub moves : List (Move P)
  pub outcome : Option GameOutcome
  pub handicap : Option String
  pub board : B
  pub scores : Scores
  pub turn_budget_hours : ℕ

-- How a game is set up: the board that `newGame` makes for a seed, and the seed that `takeBack` reads off
-- a board when it is handed none, which is undefined for every game but the photos.
pub record Setup (B : Type 0) : Type 0 where
  pub start : Option (List String) → B
  pub reseed : B → Option (List String)

-- `seed ?? other`
abbrev pub given_or : Option (List String) → Option (List String) → Option (List String)
given_or none other = other
given_or (some seed) other = some seed

pub data MoveError : Type 0 where
  not_your_turn game_over occupied out_of_range : MoveError
  handicap_forbids nothing_to_take_back empty_contribution : MoveError

pub data Result (B P : Type 0) : Type 0 where
  played : GameState B P → Result B P
  refused : MoveError → Result B P

pub data HandicapError : Type 0 where
  child_only unknown : HandicapError

pub data HandicapResult (B P : Type 0) : Type 0 where
  imposed : GameState B P → HandicapResult B P
  not_imposed : HandicapError → HandicapResult B P

-- What the rules of a game make of an acceptable move.
pub record Played (B : Type 0) : Type 0 where
  pub board : B
  pub scores : Scores
  pub outcome : Option GameOutcome
  pub keep_turn : Bool

pub data Verdict (B : Type 0) : Type 0 where
  accepted : Played B → Verdict B
  rejected : MoveError → Verdict B

abbrev pub default_turn_budget_reachable_hours : ℕ
default_turn_budget_reachable_hours = 8

abbrev pub other_side : Side → Side
other_side a = b
other_side b = a

abbrev pub is_over : Option GameOutcome → Bool
is_over none = false
is_over (some o) = true

unfoldable pub start_scores : String → Scores → Scores
start_scores id scores = if str_eq id "start_behind" then record { a = 2; b = 0 } else scores

unfoldable pub start_turn : String → Side → Side
start_turn id turn = if str_eq id "child_first" then a else turn

-- `keep`, the moves but the last.
abbrev pub init : {A : Type 0} → List A → List A
init [] = []
init (m ∷ []) = []
init (m ∷ n ∷ ms) = m ∷ init (n ∷ ms)

module _ {B P : Type 0} where
  -- The common part of `newGame`, with the board that the kind starts with.
  unfoldable pub new_game : GameKind → String → B → GameState B P
  new_game kind id board = record {
    kind = kind;
    id = id;
    turn = a;
    moves = [];
    outcome = none;
    handicap = none;
    board = board;
    scores = record { a = 0; b = 0 };
    turn_budget_hours = default_turn_budget_reachable_hours;
  }

  -- `newGame` with an optional seed.
  abbrev pub seeded : Setup B → GameKind → String → Option (List String) → GameState B P
  seeded setup kind id seed = new_game kind id (setup.start seed)

  unfoldable pub set_handicap : GameState B P → Side → Option String → HandicapResult B P
  set_handicap g b handicap_id = not_imposed child_only
  set_handicap g a none = imposed (record g { handicap = none })
  set_handicap g a (some id) =
      if not (offers g.kind id)
      then not_imposed unknown
      else imposed (record g {
        handicap = some id;
        scores = start_scores id g.scores;
        turn = start_turn id g.turn;
      })

  -- `rec`: the move is recorded and the turn passes on, or stays.
  unfoldable pub recorded : GameState B P → Side → P → Option VoiceNote → Verdict B → Result B P
  recorded g side at voice (rejected e) = refused e
  recorded g side at voice (accepted p) = played (record g {
    board = p.board;
    scores = p.scores;
    outcome = p.outcome;
    moves = g.moves ++ record { side = side; at = at; voice = voice; seq = length g.moves } ∷ [];
    turn = if p.keep_turn then side else other_side side;
  })

  -- The result's state, or the state as it was: `if (r.ok) s = r.state`.
  abbrev pub state_or : GameState B P → Result B P → GameState B P
  state_or g (played s) = s
  state_or g (refused e) = g

  abbrev pub imposed_or : GameState B P → HandicapResult B P → GameState B P
  imposed_or g (imposed s) = s
  imposed_or g (not_imposed e) = g

  -- The handicap at the start of a replay: `setHandicap(s, 'A', g.handicap).state ?? s`.
  unfoldable pub impose : Option String → GameState B P → GameState B P
  impose none g = g
  impose (some id) g = imposed_or g (set_handicap g a (some id))

  -- The rules: what becomes of the board of a running game when the side whose turn it is moves.
  module _ (rules : GameState B P → Side → P → Verdict B) where
    unfoldable pub play : GameState B P → Side → P → Option VoiceNote → Result B P
    play g side at voice =
        if is_over g.outcome
        then refused game_over
        else if not (same_side side g.turn)
        then refused not_your_turn
        else recorded g side at voice (rules g side at)

    unfoldable pub replay : GameState B P → List (Move P) → GameState B P
    replay s [] = s
    replay s (m ∷ ms) = replay (state_or s (play s m.side m.at m.voice)) ms

    -- The replay of the moves but the last, if there is one.
    unfoldable pub rewind : GameState B P → List (Move P) → Result B P
    rewind s [] = refused nothing_to_take_back
    rewind s (m ∷ ms) = played (replay s (init (m ∷ ms)))

    -- `takeBack`, with its optional seed: the game is set up anew and all moves but the last replayed.
    unfoldable pub take_back : Setup B → GameState B P → Option (List String) → Result B P
    take_back setup g seed =
        rewind (impose g.handicap (seeded setup g.kind g.id (given_or seed (setup.reseed g.board))))
          g.moves

  unfoldable pub turn_expired : GameState B P → ℕ → Bool
  turn_expired g reachable_hours_elapsed = leb g.turn_budget_hours reachable_hours_elapsed
