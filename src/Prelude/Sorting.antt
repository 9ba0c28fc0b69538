-- ===== src/Prelude/Sorting.antt =====
-- The first element of a stable sort: `[...xs].sort(compare)[0]` for a comparison by `before`.
use mathlib.Core.Path.{◌≡◌, sym, subst}
use mathlib.Core.Logic.{inl, inr}
use mathlib.Core.Bool.{Bool, true, false}
use mathlib.Core.Option.{Option, none, some}
use mathlib.Core.List.{List, [], ◌∷◌}
use olive_branch.Prelude.Lists.{All}
use olive_branch.Prelude.Tests.{Bool-cases}

-- A strict weak order as a Boolean test.
pub record IsOrder {A : Type 0} (before : A → A → Bool) : Type 0 where
  pub asymmetric : (a b : A) → before a b ≡ true → before b a ≡ false
  pub cotransitive : (a b c : A) → before a b ≡ false → before b c ≡ false → before a c ≡ false

module _ {A : Type 0} (before : A → A → Bool) where
  abbrev pub earliest : A → List A → A
  earliest x [] = x
  earliest x (y ∷ ys) = elim (before y x) [ true ↦ earliest y ys | false ↦ earliest x ys ]

  abbrev pub first_sorted : List A → Option A
  first_sorted [] = none
  first_sorted (x ∷ xs) = some (earliest x xs)

  earliest-new : (x y : A) (ys : List A) → before y x ≡ true → earliest x (y ∷ ys) ≡ earliest y ys
  earliest-new x y ys e = rw (e, earliest)

  earliest-old : (x y : A) (ys : List A) → before y x ≡ false → earliest x (y ∷ ys) ≡ earliest x ys
  earliest-old x y ys e = rw (e, earliest)

  pub earliest-Any : (P : A → Type 0) (x : A) (xs : List A) → All P (x ∷ xs) → P (earliest x xs)
  earliest-Any P x [] (p, _) = p
  earliest-Any P x (y ∷ ys) (p, (q, rest)) = elim (Bool-cases (before y x)) [
    | inl e ↦ rw (earliest-new x y ys e) (earliest-Any P y ys (q, rest))
    | inr e ↦ rw (earliest-old x y ys e) (earliest-Any P x ys (p, rest))
  ]

  -- Nothing in the list comes before the earliest element.
  abbrev pub NothingBefore : A → List A → Type 0
  NothingBefore e xs = All (λ z. before z e ≡ false) xs

  module _ (o : IsOrder before) where
    bounded :
        (x : A) (ys : List A)
        → (before x (earliest x ys) ≡ false) × NothingBefore (earliest x ys) ys
    bounded x [] = (elim (Bool-cases (before x x)) [ inl e ↦ o.asymmetric x x e | inr e ↦ e ], tt)
    bounded x (y ∷ ys) = elim (Bool-cases (before y x)) [
      | inl e ↦
          let (h, rest) = bounded y ys in
          subst (λ z. (before x z ≡ false) × NothingBefore z (y ∷ ys)) (sym (earliest-new x y ys e))
            (o.cotransitive x y (earliest y ys) (o.asymmetric y x e) h, (h, rest))
      | inr e ↦
          let (h, rest) = bounded x ys in
          subst (λ z. (before x z ≡ false) × NothingBefore z (y ∷ ys)) (sym (earliest-old x y ys e))
            (h, (o.cotransitive y x (earliest x ys) e h, rest))
    ]

    pub earliest-NothingBefore : (x : A) (ys : List A) → NothingBefore (earliest x ys) (x ∷ ys)
    earliest-NothingBefore x ys = bounded x ys
