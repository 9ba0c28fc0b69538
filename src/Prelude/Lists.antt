-- ===== src/Prelude/Lists.antt =====
-- Lists measured by native numbers, and predicates over a list by recursion, which compute to
-- tuples and sums.
use Prim.Native.Nat.{ℕ, zero, suc, ◌+◌}
use mathlib.Core.Path.{◌≡◌}
use mathlib.Core.Logic.{◌↔◌, ◌⊎◌, inl, inr}
use mathlib.Core.Bool.{Bool, true, false, ◌&&◌, ◌||◌}
use mathlib.Core.Option.{Option, none, some}
use mathlib.Core.List.{List, [], ◌∷◌, ◌++◌}
use native.Mathlib.Omega.{arith}
use olive_branch.Prelude.Tests.{Bool-cases}

module _ {ℓ} {A : Type ℓ} where
  abbrev pub length : List A → ℕ
  length [] = 0
  length (x ∷ xs) = suc (length xs)

  abbrev pub get_elem? : List A → ℕ → Option A
  get_elem? [] i = none
  get_elem? (x ∷ xs) zero = some x
  get_elem? (x ∷ xs) (suc i) = get_elem? xs i

  -- The `filter`, `some` and `every` of an array, on a Boolean test.
  abbrev pub filterb : (A → Bool) → List A → List A
  filterb p [] = []
  filterb p (x ∷ xs) = elim (p x) [ true ↦ x ∷ filterb p xs | false ↦ filterb p xs ]

  abbrev pub any : (A → Bool) → List A → Bool
  any p [] = false
  any p (x ∷ xs) = p x || any p xs

  abbrev pub all : (A → Bool) → List A → Bool
  all p [] = true
  all p (x ∷ xs) = p x && all p xs

  -- `find` of an array.
  abbrev pub find : (A → Bool) → List A → Option A
  find p [] = none
  find p (x ∷ xs) = elim (p x) [ true ↦ some x | false ↦ find p xs ]

  pub length-append : (xs ys : List A) → length (xs ++ ys) ≡ length xs + length ys
  length-append [] ys = omega arith
  length-append (x ∷ xs) ys = omega (arith, length-append xs ys)

module _ {ℓ} {A : Type ℓ} (P : A → Type 0) where
  abbrev pub All : List A → Type 0
  All [] = Unit
  All (x ∷ xs) = P x × All xs

  pub All-snoc : (xs : List A) (y : A) → All xs → P y → All (xs ++ y ∷ [])
  All-snoc [] y h p = (p, tt)
  All-snoc (x ∷ xs) y (q, h) p = (q, All-snoc xs y h p)

  abbrev pub Any : List A → Type 0
  Any [] = ⊥
  Any (x ∷ xs) = P x ⊎ Any xs

module _ {A : Type 0} where
  pub Any-map : (P Q : A → Type 0) (xs : List A) → ((x : A) → P x → Q x) → Any P xs → Any Q xs
  Any-map P Q [] f h = h
  Any-map P Q (x ∷ xs) f (inl p) = inl (f x p)
  Any-map P Q (x ∷ xs) f (inr h) = inr (Any-map P Q xs f h)

  pub filterb-pos :
      (p : A → Bool) (x : A) (xs : List A) → p x ≡ true → filterb p (x ∷ xs) ≡ x ∷ filterb p xs
  filterb-pos p x xs e = rw (e, filterb)

  pub filterb-neg :
      (p : A → Bool) (x : A) (xs : List A) → p x ≡ false → filterb p (x ∷ xs) ≡ filterb p xs
  filterb-neg p x xs e = rw (e, filterb)

  pub Any-filterb :
      (P : A → Type 0) (p : A → Bool) (xs : List A)
      → Any P (filterb p xs) ↔ Any (λ x. (p x ≡ true) × P x) xs
  Any-filterb P p [] = (λ h. h, λ h. h)
  Any-filterb P p (x ∷ xs) =
      let (to, from) = Any-filterb P p xs in
      elim (Bool-cases (p x)) [
        | inl e ↦ rw (filterb-pos p x xs e) (
          λ h. elim h [ inl q ↦ inl (e, q) | inr r ↦ inr (to r) ],
          λ h. elim h [ inl q ↦ inl q.1 | inr r ↦ inr (from r) ],
        )
        | inr e ↦
            rw (filterb-neg p x xs e)
              (λ h. inr (to h), λ h. elim h [ inl q ↦ absurd (cc) | inr r ↦ from r ])
      ]
