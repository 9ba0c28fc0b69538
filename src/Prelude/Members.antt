-- ===== src/Prelude/Members.antt =====
-- Membership in a list, and the first element of a sort as a member before which no other comes.
use mathlib.Core.Path.{◌≡◌, refl, sym, ◌∙◌, ap, subst}
use mathlib.Core.Logic.{◌↔◌, inl, inr}
use mathlib.Core.Bool.{Bool, true, false}
use mathlib.Core.Option.{some}
use mathlib.Core.List.{List, [], ◌∷◌}
use olive_branch.Prelude.Lists.{All, Any, Any-map, Any-filterb, filterb}
use olive_branch.Prelude.Sorting.{
  IsOrder, earliest, first_sorted, earliest-Any, earliest-NothingBefore,
}

abbrev pub non_empty {ℓ} : {A : Type ℓ} → List A → Bool
non_empty [] = false
non_empty (x ∷ xs) = true

module _ {A : Type 0} where
  abbrev pub Mem : A → List A → Type 0
  Mem q xs = Any (λ z. q ≡ z) xs

  filtered-holds :
      (p : A → Bool) (q : A) (xs : List A) → Any (λ x. (p x ≡ true) × (q ≡ x)) xs → p q ≡ true
  filtered-holds p q [] h = absurd h
  filtered-holds p q (y ∷ ys) (inl e) = ap p e.1 ∙ e.0
  filtered-holds p q (y ∷ ys) (inr h) = filtered-holds p q ys h

  pub Mem-filterb :
      (p : A → Bool) (q : A) (xs : List A) → Mem q (filterb p xs) ↔ (Mem q xs × (p q ≡ true))
  Mem-filterb p q xs =
      let (to, from) = Any-filterb (λ z. q ≡ z) p xs in
      (
        λ h. (Any-map _ _ xs (λ x e. e.1) (to h), filtered-holds p q xs (to h)),
        λ h. from (Any-map _ _ xs (λ x e. (ap p (sym e) ∙ h.1, e)) h.0),
      )

  pub All-Mem : (P : A → Type 0) (q : A) (xs : List A) → All P xs → Mem q xs → P q
  All-Mem P q [] a m = absurd m
  All-Mem P q (x ∷ xs) (a, rest) (inl e) = subst P (sym e) a
  All-Mem P q (x ∷ xs) (a, rest) (inr m) = All-Mem P q xs rest m

  pub All-of : (P : A → Type 0) (xs : List A) → ((q : A) → Mem q xs → P q) → All P xs
  All-of P [] f = tt
  All-of P (x ∷ xs) f = (f x (inl refl), All-of P xs (λ q m. f q (inr m)))

module _ {A : Type 0} (before : A → A → Bool) where
  -- A member before which no member comes.
  pub record Earliest (xs : List A) (w : A) : Type 0 where
    pub member : Mem w xs
    pub nothing_before : (q : A) → Mem q xs → before q w ≡ false

  pub first_sorted-Earliest :
      (o : IsOrder before) (xs : List A)
      → non_empty xs ≡ true
      → (w : A) × (first_sorted before xs ≡ some w) × Earliest xs w
  first_sorted-Earliest o [] h = absurd (cc)
  first_sorted-Earliest o (x ∷ xs) h = (
    earliest before x xs,
    refl,
    record {
      member =
          earliest-Any before (λ z. Mem z (x ∷ xs)) x xs
            (All-of (λ z. Mem z (x ∷ xs)) (x ∷ xs) (λ q m. m));
      nothing_before = λ q m.
          All-Mem (λ z. before z (earliest before x xs) ≡ false) q (x ∷ xs)
            (earliest-NothingBefore before o x xs) m;
    },
  )
