-- ===== src/Prelude/Filtered.antt =====
-- The first element of a sort of what a filter keeps.
use mathlib.Core.Path.{◌≡◌, refl, sym, subst}
use mathlib.Core.Logic.{◌⊎◌, ◌↔◌, inl, inr}
use mathlib.Core.Bool.{Bool, true, false}
use mathlib.Core.Option.{none, some}
use mathlib.Core.List.{List, [], ◌∷◌}
use olive_branch.Prelude.Insertion.{insert, sort}
use olive_branch.Prelude.Tests.{Bool-cases}
use olive_branch.Prelude.Lists.{filterb}
use olive_branch.Prelude.Sorting.{IsOrder, first_sorted}
use olive_branch.Prelude.Members.{Mem, Mem-filterb, first_sorted-Earliest}

module _ {A : Type 0} (before : A → A → Bool) (test : A → Bool) where
  -- A member that passes the test and before which no other such member comes.
  pub record Best (xs : List A) (w : A) : Type 0 where
    pub listed : Mem w xs
    pub passes : test w ≡ true
    pub unbeaten : (q : A) → Mem q xs → test q ≡ true → before q w ≡ false

  first_of :
      (o : IsOrder before) (xs hits : List A)
      → hits ≡ filterb test xs
      → ((first_sorted before hits ≡ none) × ((q : A) → Mem q xs → test q ≡ true → ⊥))
        ⊎ ((w : A) × Best xs w × (first_sorted before hits ≡ some w))
  first_of o xs [] e = inl (refl, λ q m h. subst (Mem q) (sym e) ((Mem-filterb test q xs).1 (m, h)))
  first_of o xs (y ∷ ys) e =
      let (w, head, first) = first_sorted-Earliest before o (y ∷ ys) refl in
      let (listed, passes) = (Mem-filterb test w xs).0 (subst (Mem w) e first.member) in
      inr (
        w,
        record {
          listed = listed;
          passes = passes;
          unbeaten = λ q m h.
              first.nothing_before q (subst (Mem q) (sym e) ((Mem-filterb test q xs).1 (m, h)));
        },
        head,
      )

  pub first_filtered :
      (o : IsOrder before) (xs : List A)
      → ((first_sorted before (filterb test xs) ≡ none) × ((q : A) → Mem q xs → test q ≡ true → ⊥))
        ⊎ ((w : A) × Best xs w × (first_sorted before (filterb test xs) ≡ some w))
  first_filtered o xs = first_of o xs (filterb test xs) refl

module _ {A : Type 0} (before : A → A → Bool) where
  Mem-insert : (q x : A) (ys : List A) → Mem q (insert before x ys) ↔ ((q ≡ x) ⊎ Mem q ys)
  Mem-insert q x [] = (λ m. m, λ m. m)
  Mem-insert q x (y ∷ ys) =
      let (to, from) = Mem-insert q x ys in
      elim (Bool-cases (before y x)) [
        | inl later ↦ rw later (
          λ m. elim m [
            | inl e ↦ inr (inl e)
            | inr r ↦ elim (to r) [ inl e ↦ inl e | inr k ↦ inr (inr k) ]
          ],
          λ m. elim m [
            | inl e ↦ inr (from (inl e))
            | inr r ↦ elim r [ inl e ↦ inl e | inr k ↦ inr (from (inr k)) ]
          ],
        )
        | inr here ↦ rw here (λ m. m, λ m. m)
      ]

  -- A sort has the same members.
  pub Mem-sort : (q : A) (xs : List A) → Mem q (sort before xs) ↔ Mem q xs
  Mem-sort q [] = (λ m. m, λ m. m)
  Mem-sort q (x ∷ xs) =
      let (to, from) = Mem-sort q xs in
      let (split, join) = Mem-insert q x (sort before xs) in
      (
        λ m. elim (split m) [ inl e ↦ inl e | inr r ↦ inr (to r) ],
        λ m. elim m [ inl e ↦ join (inl e) | inr r ↦ join (inr (from r)) ],
      )
