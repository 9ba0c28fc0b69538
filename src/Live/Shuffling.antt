-- ===== src/Live/Shuffling.antt =====
-- The shuffle of live.ts keeps every card.
use olive_branch.Prelude.{
  ℕ, zero, suc, ◌+◌, ◌≡◌, refl, ◌∙◌, Bool, Option, none, some, some-injective, List, [], ◌∷◌,
  get_elem?, count, if◌then◌else◌, arith,
}
use olive_branch.Live.Decks.{set_elem, put_both, swap, shuffle_from}

module _ {A : Type 0} where
  get_elem?-set_elem :
      (i j : ℕ) (a : A) (xs : List A)
      → get_elem? xs j ≡ some a
      → get_elem? (set_elem i a xs) j ≡ some a
  get_elem?-set_elem i j a [] h = h
  get_elem?-set_elem zero zero a (y ∷ ys) h = refl
  get_elem?-set_elem zero (suc j) a (y ∷ ys) h = h
  get_elem?-set_elem (suc i) zero a (y ∷ ys) h = h
  get_elem?-set_elem (suc i) (suc j) a (y ∷ ys) h = get_elem?-set_elem i j a ys h

  count-set_elem :
      (p : A → Bool) (i : ℕ) (x old : A) (xs : List A)
      → get_elem? xs i ≡ some old
      → count p (set_elem i x xs) + (if p old then 1 else 0) ≡ count p xs + (if p x then 1 else 0)
  count-set_elem p i x old [] h = absurd (cc)
  count-set_elem p zero x old (y ∷ ys) h =
      let same : y ≡ old = some-injective _ _ h in rw same (omega arith)
  count-set_elem p (suc i) x old (y ∷ ys) h = omega (arith, count-set_elem p i x old ys h)

  count-put_both :
      (p : A → Bool) (i j : ℕ) (a b : Option A) (xs : List A)
      → get_elem? xs j ≡ a
      → get_elem? xs i ≡ b
      → count p (put_both i j a b xs) ≡ count p xs
  count-put_both p i j none b xs h k = refl
  count-put_both p i j (some a) none xs h k = refl
  count-put_both p i j (some a) (some b) xs h k =
      let first = count-set_elem p i a b xs k in
      let second = count-set_elem p j b a (set_elem i a xs) (get_elem?-set_elem i j a xs h) in
      omega arith

  -- Whatever the random numbers, the shuffle keeps every card as often as it is in the deck.
  pub count-shuffle_from :
      (pick : ℕ → ℕ) (p : A → Bool) (i : ℕ) (xs : List A)
      → count p (shuffle_from pick i xs) ≡ count p xs
  unfolding shuffle_from
  count-shuffle_from pick p zero xs = refl
  count-shuffle_from pick p (suc i) xs =
      count-shuffle_from pick p i (swap (suc i) (pick (suc i)) xs)
      ∙ count-put_both p (suc i) (pick (suc i)) (get_elem? xs (pick (suc i))) (get_elem? xs (suc i))
          xs refl refl
