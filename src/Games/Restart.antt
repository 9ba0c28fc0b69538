-- ===== src/Games/Restart.antt =====
-- games.ts: the games whose takeback sets up the board that they started with.
use olive_branch.Prelude.{
  ℕ, Bool, true, false, not, Option, none, some, List, [], ◌∷◌, ◌++◌, String, leb, length,
  if◌then◌else◌, ◌||◌, ◌≡◌, refl, sym, ap, subst, ◌∙◌, ◌⊎◌, inl, inr, ◌↔◌, arith, Mem, Bool-cases,
  str_eq, eq_iff,
}
use olive_branch.Games.Catalogue.{Side, GameKind, same_side}
use olive_branch.Games.Runtime.{
  VoiceNote, GameState, Result, played, refused, Played, Verdict, accepted, rejected, is_over, play,
  recorded, state_or, game_over, not_your_turn, Setup, impose, seeded, occupied, out_of_range,
}
use olive_branch.Games.Boards.{seedless}
use olive_branch.Games.Photos.{
  Photos, photos_start, default_photos, has_photo, dedupe_from, dedupe, photos_setup, turned,
  turn_pair, memory_rules, includes_number,
}
use olive_branch.Games.Takeback.{Reachable, begun, moved, Restarts, impose-IsStart}

module _ {B P : Type 0} (rules : GameState B P → Side → P → Verdict B) where
  -- A game that takes no seed.
  pub seedless-Restarts :
      (board : B) (start : GameState B P) (seed again : Option (List String))
      → Restarts rules (seedless board) start seed again
  seedless-Restarts board start seed again h r = refl

  -- Any game, where the takeback is handed the seed of the game.
  pub given-Restarts :
      (setup : Setup B) (start : GameState B P) (seed : List String)
      → Restarts rules setup start (some seed) (some seed)
  given-Restarts setup start seed h r = refl

  recorded-board :
      (g : GameState B P) (side : Side) (at : P) (voice : Option VoiceNote) (v : Verdict B)
      → (h : GameState B P) → recorded g side at voice v ≡ played h
      → (p : Played B) × (v ≡ accepted p) × (h.board ≡ p.board)
  unfolding recorded
  recorded-board g side at voice (rejected e) h q = absurd (cc)
  recorded-board g side at voice (accepted p) h q =
      (p, refl, sym (ap (λ s. s.board) (ap (state_or g) q)))

  -- An accepted move has the board that the rules gave.
  play-board :
      (g : GameState B P) (side : Side) (at : P) (voice : Option VoiceNote) (h : GameState B P)
      → play rules g side at voice ≡ played h
      → (p : Played B) × (rules g side at ≡ accepted p) × (h.board ≡ p.board)
  play-board g side at voice h q =
      recorded-board g side at voice (rules g side at) h
        (went (is_over g.outcome) (not (same_side side g.turn)) _ (unfold play in q))
    where
      went :
          (over wrong : Bool) (r : Result B P)
          → (if over then refused game_over else if wrong then refused not_your_turn else r)
            ≡ played h
          → r ≡ played h
      went true wrong r e = absurd (cc)
      went false true r e = absurd (cc)
      went false false r e = e

-- No photo stands twice.
abbrev pub AllDifferent : List String → Type 0
AllDifferent [] = Unit
AllDifferent (x ∷ xs) = (has_photo xs x ≡ false) × AllDifferent xs

has_photo_iff : (xs : List String) (x : String) → (has_photo xs x ≡ true) ↔ Mem x xs
has_photo_iff [] x = (λ h. absurd (cc), λ m. absurd m)
has_photo_iff (y ∷ ys) x =
    let (to, from) = has_photo_iff ys x in
    let (equal, same) = eq_iff y x in
    (
      λ h. elim (Bool-cases (str_eq y x)) [
        | inl e ↦ inl (sym (equal e))
        | inr e ↦ inr (to (rw e at h))
      ],
      λ m. elim m [
        | inl e ↦ rw (same (sym e)) refl
        | inr r ↦ elim (Bool-cases (str_eq y x)) [ inl e ↦ rw e refl | inr e ↦ rw e (from r) ]
      ],
    )

dedupe_from-old :
    (seen xs : List String) (x : String)
    → has_photo seen x ≡ true
    → dedupe_from seen (x ∷ xs) ≡ dedupe_from seen xs
unfolding dedupe_from
dedupe_from-old seen xs x e = rw e refl

dedupe_from-new :
    (seen xs : List String) (x : String)
    → has_photo seen x ≡ false
    → dedupe_from seen (x ∷ xs) ≡ x ∷ dedupe_from (x ∷ seen) xs
unfolding dedupe_from
dedupe_from-new seen xs x e = rw e refl

-- What was seen is dropped.
dedupe_from-seen :
    (seen ys : List String) → ((y : String) → Mem y ys → Mem y seen) → dedupe_from seen ys ≡ []
dedupe_from-seen seen [] f = unfold dedupe_from in refl
dedupe_from-seen seen (y ∷ ys) f =
    dedupe_from-old seen ys y ((has_photo_iff seen y).1 (f y (inl refl)))
    ∙ dedupe_from-seen seen ys (λ z m. f z (inr m))

dedupe_from-append :
    (seen xs ys : List String)
    → ((y : String) → Mem y ys → Mem y seen ⊎ Mem y xs)
    → dedupe_from seen (xs ++ ys) ≡ dedupe_from seen xs
dedupe_from-append seen [] ys f =
    dedupe_from-seen seen ys (λ y m. elim (f y m) [ inl s ↦ s | inr n ↦ absurd n ])
    ∙ unfold dedupe_from in refl
dedupe_from-append seen (x ∷ xs) ys f = elim (Bool-cases (has_photo seen x)) [
  | inl old ↦
      dedupe_from-old seen (xs ++ ys) x old
      ∙ dedupe_from-append seen xs ys (λ y m. elim (f y m) [
        | inl s ↦ inl s
        | inr (inl e) ↦ inl (subst (λ z. Mem z seen) (sym e) ((has_photo_iff seen x).0 old))
        | inr (inr r) ↦ inr r
      ])
      ∙ sym (dedupe_from-old seen xs x old)
  | inr new ↦
      dedupe_from-new seen (xs ++ ys) x new
      ∙ ap (λ l. x ∷ l)
          (dedupe_from-append (x ∷ seen) xs ys (λ y m. elim (f y m) [
            | inl s ↦ inl (inr s)
            | inr (inl e) ↦ inl (inl e)
            | inr (inr r) ↦ inr r
          ]))
      ∙ sym (dedupe_from-new seen xs x new)
]

dedupe_from-AllDifferent :
    (seen xs : List String)
    → AllDifferent xs
    → ((y : String) → Mem y xs → has_photo seen y ≡ false)
    → dedupe_from seen xs ≡ xs
dedupe_from-AllDifferent seen [] d f = unfold dedupe_from in refl
dedupe_from-AllDifferent seen (x ∷ xs) (new, d) f =
    dedupe_from-new seen xs x (f x (inl refl))
    ∙ ap (λ l. x ∷ l)
        (dedupe_from-AllDifferent (x ∷ seen) xs d (λ y m. elim (Bool-cases (str_eq x y)) [
          | inl e ↦
              let here : Mem x xs = subst (λ z. Mem z xs) (sym ((eq_iff x y).0 e)) m in
              let twice = (has_photo_iff xs x).1 here in absurd (cc)
          | inr e ↦ rw e (f y (inr m))
        ]))

dedupe-twice : (photos : List String) → AllDifferent photos → dedupe (photos ++ photos) ≡ photos
dedupe-twice photos d =
    dedupe_from-append [] photos photos (λ y m. inr m)
    ∙ dedupe_from-AllDifferent [] photos d (λ y m. refl)

turned-deck :
    (g : GameState Photos ℕ) (side : Side) (up : List ℕ) (p : Played Photos)
    → turned g side up ≡ accepted p
    → p.board.deck ≡ g.board.deck
unfolding turned turn_pair
turned-deck g side [] p e = ground arith
turned-deck g side (x ∷ []) p e = ground arith
turned-deck g side (x ∷ y ∷ rest) p e = ground arith

memory_rules-deck :
    (g : GameState Photos ℕ) (side : Side) (i : ℕ) (p : Played Photos)
    → memory_rules g side i ≡ accepted p
    → p.board.deck ≡ g.board.deck
memory_rules-deck g side i p e = turned-deck g side (g.board.revealed ++ i ∷ []) p (
    went (leb (length g.board.deck) i)
      (includes_number g.board.matched i || includes_number g.board.revealed i) _
      (unfold memory_rules in e))
  where
    went :
        (out taken : Bool) (v : Verdict Photos)
        → (if out then rejected out_of_range else if taken then rejected occupied else v)
          ≡ accepted p
        → v ≡ accepted p
    went true taken v e = absurd (cc)
    went false true v e = absurd (cc)
    went false false v e = e

-- No move of the memory game changes its deck.
Reachable-deck :
    (start h : GameState Photos ℕ)
    → Reachable memory_rules start h
    → h.board.deck ≡ start.board.deck
Reachable-deck start h begun = refl
Reachable-deck start h (moved {g} side at voice r q) =
    let (p, accepted_move, same) = play-board memory_rules g side at voice h q in
    ap (λ b. b.deck) same ∙ memory_rules-deck g side at p accepted_move ∙ Reachable-deck start g r

-- The memory game, where no photo stands twice and the takeback is handed no seed: the photos that it
-- reads off the deck are those of the game.
pub memory-Restarts :
    (kind : GameKind) (id : String) (photos : List String) (handicap : Option String)
    → AllDifferent photos
    → Restarts memory_rules photos_setup
        (impose handicap (seeded photos_setup kind id (some photos)))
        (some photos)
        none
memory-Restarts kind id photos handicap d h r =
    let start = impose-IsStart {P = ℕ} memory_rules kind id (photos_start photos) handicap in
    let deck =
      Reachable-deck (impose handicap (seeded photos_setup kind id (some photos))) h r
      ∙ ap (λ b. b.deck) start.board in
    ap photos_start (ap dedupe deck ∙ dedupe-twice photos d)

-- The memory game with the photos that the code has for no seed.
pub default-Restarts :
    (kind : GameKind) (id : String) (handicap : Option String)
    → Restarts memory_rules photos_setup
        (impose handicap (seeded photos_setup kind id none))
        none
        none
default-Restarts kind id handicap =
    memory-Restarts kind id default_photos handicap
      (refl, (refl, (refl, (refl, (refl, (refl, tt))))))
