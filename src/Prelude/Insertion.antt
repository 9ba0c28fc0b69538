-- ===== src/Prelude/Insertion.antt =====
-- A stable sort: `[...xs].sort(compare)`, where `before a b` is `compare(a, b) < 0`.
use Prim.Native.Nat.{ℕ, ◌+◌}
use mathlib.Core.Path.{◌≡◌, refl, ap, ◌∙◌}
use mathlib.Core.Logic.{inl, inr}
use mathlib.Core.Bool.{Bool, false}
use mathlib.Core.List.{List, [], ◌∷◌}
use native.Mathlib.Omega.{arith}
use olive_branch.Prelude.Tests.{if◌then◌else◌, Bool-cases}
use olive_branch.Prelude.Lists.{All}
use olive_branch.Prelude.Sorting.{IsOrder}

-- How many elements pass the test.
abbrev pub count {ℓ} : {A : Type ℓ} → (A → Bool) → List A → ℕ
count p [] = 0
count p (x ∷ xs) = (if p x then 1 else 0) + count p xs

module _ {A : Type 0} (before : A → A → Bool) where
  abbrev pub insert : A → List A → List A
  insert x [] = x ∷ []
  insert x (y ∷ ys) = let rest = insert x ys in if before y x then y ∷ rest else x ∷ y ∷ ys

  abbrev pub sort : List A → List A
  sort [] = []
  sort (x ∷ xs) = insert x (sort xs)

  count-insert : (p : A → Bool) (x : A) (ys : List A) → count p (insert x ys) ≡ count p (x ∷ ys)
  count-insert p x [] = refl
  count-insert p x (y ∷ ys) = ground (arith, count-insert p x ys)

  -- A sort keeps every element as often as it stands in the list.
  pub count-sort : (p : A → Bool) (xs : List A) → count p (sort xs) ≡ count p xs
  count-sort p [] = refl
  count-sort p (x ∷ xs) =
      count-insert p x (sort xs) ∙ ap (λ n. (if p x then 1 else 0) + n) (count-sort p xs)

  -- No element comes before one that stands earlier.
  abbrev pub Sorted : List A → Type 0
  Sorted [] = Unit
  Sorted (x ∷ xs) = All (λ z. before z x ≡ false) xs × Sorted xs

  All-insert : (P : A → Type 0) (x : A) (ys : List A) → P x → All P ys → All P (insert x ys)
  All-insert P x [] p h = (p, tt)
  All-insert P x (y ∷ ys) p (q, h) = elim (Bool-cases (before y x)) [
    | inl later ↦ rw later (q, All-insert P x ys p h)
    | inr here ↦ rw here (p, (q, h))
  ]

  behind :
      IsOrder before
      → (x y : A) (ys : List A) → before y x ≡ false
      → All (λ z. before z y ≡ false) ys
      → All (λ z. before z x ≡ false) ys
  behind o x y [] e h = tt
  behind o x y (z ∷ zs) e (q, h) = (o.cotransitive z y x q e, behind o x y zs e h)

  insert-Sorted : IsOrder before → (x : A) (ys : List A) → Sorted ys → Sorted (insert x ys)
  insert-Sorted o x [] h = (tt, tt)
  insert-Sorted o x (y ∷ ys) (h, s) = elim (Bool-cases (before y x)) [
    | inl later ↦ rw later (
      All-insert (λ z. before z y ≡ false) x ys (o.asymmetric y x later) h,
      insert-Sorted o x ys s,
    )
    | inr here ↦ rw here ((here, behind o x y ys here h), (h, s))
  ]

  pub sort-Sorted : IsOrder before → (xs : List A) → Sorted (sort xs)
  sort-Sorted o [] = tt
  sort-Sorted o (x ∷ xs) = insert-Sorted o x (sort xs) (sort-Sorted o xs)
