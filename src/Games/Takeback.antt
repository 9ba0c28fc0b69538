-- ===== src/Games/Takeback.antt =====
-- The takeback of games.ts, which replays the game from its start.
use olive_branch.Prelude.{
  Bool, true, false, not, Option, none, some, List, [], ◌∷◌, ◌++◌, String, length, if◌then◌else◌,
  ◌≡◌, refl, sym, ap, subst, ◌∙◌, arith,
}
use olive_branch.Games.Catalogue.{Side, GameKind, same_side}
use olive_branch.Games.Runtime.{
  VoiceNote, Move, GameState, Result, played, refused, Verdict, accepted, rejected, init, is_over,
  new_game, impose, set_handicap, rewind, recorded, state_or, play, replay, take_back, game_over,
  Setup, given_or, seeded, not_your_turn,
}

init-snoc : {A : Type 0} (xs : List A) (x : A) → init (xs ++ x ∷ []) ≡ xs
init-snoc [] x = refl
init-snoc (y ∷ []) x = refl
init-snoc (y ∷ z ∷ xs) x = ap (λ l. y ∷ l) (init-snoc (z ∷ xs) x)

module _ {B P : Type 0} where
  -- A move changes neither the game's identity nor its handicap, and adds itself to the moves.
  record IsNext (g : GameState B P) (side : Side) (at : P) (voice : Option VoiceNote)
      (h : GameState B P) : Type 0 where
    kind : h.kind ≡ g.kind
    id : h.id ≡ g.id
    handicap : h.handicap ≡ g.handicap
    moves :
        h.moves
        ≡ g.moves ++ record { side = side; at = at; voice = voice; seq = length g.moves } ∷ []

  recorded-IsNext :
      (g : GameState B P) (side : Side) (at : P) (voice : Option VoiceNote) (v : Verdict B)
      → (h : GameState B P) → recorded g side at voice v ≡ played h
      → IsNext g side at voice h
  unfolding recorded
  recorded-IsNext g side at voice (rejected e) h q = absurd (cc)
  recorded-IsNext g side at voice (accepted p) h q =
      let same = ap (state_or g) q in
      record {
        kind = sym (ap (λ s. s.kind) same);
        id = sym (ap (λ s. s.id) same);
        handicap = sym (ap (λ s. s.handicap) same);
        moves = sym (ap (λ s. s.moves) same);
      }

  module _ (rules : GameState B P → Side → P → Verdict B) where
    play-IsNext :
        (g : GameState B P) (side : Side) (at : P) (voice : Option VoiceNote) (h : GameState B P)
        → play rules g side at voice ≡ played h
        → IsNext g side at voice h
    play-IsNext g side at voice h q =
        recorded-IsNext g side at voice (rules g side at) h
          (went (is_over g.outcome) (not (same_side side g.turn)) _ (unfold play in q))
      where
        went :
            (over wrong : Bool) (r : Result B P)
            → (if over then refused game_over else if wrong then refused not_your_turn else r)
              ≡ played h
            → r ≡ played h
        went true wrong r e = absurd (cc)
        went false true r e = absurd (cc)
        went false false r e = e

    -- The states that a game can reach by its moves.
    pub data Reachable (start : GameState B P) : GameState B P → Type 0 where
      begun : Reachable start start
      moved :
          {g h : GameState B P} (side : Side) (at : P) (voice : Option VoiceNote)
          → Reachable start g
          → play rules g side at voice ≡ played h
          → Reachable start h

    replay-empty : (s : GameState B P) → replay rules s [] ≡ s
    unfolding replay
    replay-empty s = refl

    replay-snoc :
        (s : GameState B P) (ms : List (Move P)) (m : Move P)
        → replay rules s (ms ++ m ∷ [])
          ≡ state_or (replay rules s ms) (play rules (replay rules s ms) m.side m.at m.voice)
    unfolding replay
    replay-snoc s [] m = refl
    replay-snoc s (n ∷ ms) m = replay-snoc (state_or s (play rules s n.side n.at n.voice)) ms m

    -- A reachable state is what the replay of its moves gives.
    record IsReplayed (start g : GameState B P) : Type 0 where
      kind : g.kind ≡ start.kind
      id : g.id ≡ start.id
      handicap : g.handicap ≡ start.handicap
      same : replay rules start g.moves ≡ g

    Reachable-IsReplayed :
        (start g : GameState B P) → start.moves ≡ [] → Reachable start g → IsReplayed start g
    Reachable-IsReplayed start g e begun = record {
      kind = refl;
      id = refl;
      handicap = refl;
      same = subst (λ l. replay rules start l ≡ start) (sym e) (replay-empty start);
    }
    Reachable-IsReplayed start h e (moved {g} side at voice r q) =
        let before = Reachable-IsReplayed start g e r in
        let next = play-IsNext g side at voice h q in
        record {
          kind = next.kind ∙ before.kind;
          id = next.id ∙ before.id;
          handicap = next.handicap ∙ before.handicap;
          same =
              ap (replay rules start) next.moves
              ∙ replay-snoc start g.moves
                  (record { side = side; at = at; voice = voice; seq = length g.moves })
              ∙ subst (λ s. state_or s (play rules s side at voice) ≡ h) (sym before.same)
                  (ap (state_or g) q);
        }

    rewind-snoc :
        (s : GameState B P) (xs : List (Move P)) (m : Move P)
        → rewind rules s (xs ++ m ∷ []) ≡ played (replay rules s xs)
    unfolding rewind
    rewind-snoc s [] m = refl
    rewind-snoc s (x ∷ xs) m = ap (λ l. played (replay rules s l)) (init-snoc (x ∷ xs) m)

    -- The start of a game with a handicap that is imposed before the first move, or none.
    pub record IsStart (k : GameKind) (i : String) (fresh : B) (start : GameState B P)
        : Type 0 where
      kind : start.kind ≡ k
      id : start.id ≡ i
      moves : start.moves ≡ []
      pub board : start.board ≡ fresh

    pub impose-IsStart :
        (kind : GameKind) (id : String) (board : B) (handicap : Option String)
        → IsStart kind id board (impose handicap (new_game kind id board))
    unfolding impose set_handicap new_game
    impose-IsStart kind id board none = record {
      kind = refl;
      id = refl;
      moves = refl;
      board = refl;
    }
    impose-IsStart kind id board (some h) = ground arith

    -- In every state of the game, the seed that is handed over, or the one read off the board, sets up
    -- the board that the game started with.
    abbrev pub Restarts : Setup B → GameState B P → (seed again : Option (List String)) → Type 0
    Restarts setup start seed again =
        (h : GameState B P)
        → Reachable start h
        → setup.start (given_or again (setup.reseed h.board)) ≡ setup.start seed

    -- A takeback undoes a move exactly, whatever the rules: if the handicap, one that the game offers or
    -- none, was imposed before the first move, and the seed that the takeback is handed or reads off the
    -- board sets up the board that the game started with, then taking back after a move of a reachable
    -- state gives that state, with its turn, scores and board, however many extra turns the moves had.
    pub take_back-play :
        (setup : Setup B) (kind : GameKind) (id : String) (seed again : Option (List String))
        (handicap : Option String) (g h : GameState B P) (side : Side) (at : P)
        (voice : Option VoiceNote)
        → (impose handicap (seeded {P = P} setup kind id seed)).handicap ≡ handicap
        → Restarts setup (impose handicap (seeded setup kind id seed)) seed again
        → Reachable (impose handicap (seeded setup kind id seed)) g
        → play rules g side at voice ≡ played h
        → take_back rules setup h again ≡ played g
    unfolding take_back
    take_back-play setup kind id seed again handicap g h side at voice offered restarts r q =
        let begin : GameState B P = impose handicap (seeded setup kind id seed) in
        let start = impose-IsStart kind id (setup.start seed) handicap in
        let now = Reachable-IsReplayed begin g start.moves r in
        let next = play-IsNext g side at voice h q in
        let same_kind = next.kind ∙ now.kind ∙ start.kind in
        let same_id = next.id ∙ now.id ∙ start.id in
        let same_handicap = next.handicap ∙ now.handicap ∙ offered in
        let same_start = restarts h (moved side at voice r q) in
        rw (same_start, same_kind, same_id, same_handicap, next.moves)
          (rewind-snoc begin g.moves _ ∙ ap played now.same)
