-- ===== src/Prelude/Found.antt =====
-- What `find` and `any` answer, by the members of the list.
use mathlib.Core.Path.{◌≡◌, refl, sym, ◌∙◌, ap}
use mathlib.Core.Logic.{◌↔◌, inl, inr}
use mathlib.Core.Bool.{Bool, true, false}
use mathlib.Core.Option.{none, some}
use mathlib.Core.List.{List, [], ◌∷◌, ◌++◌}
use Prim.Native.Nat.{ℕ}
use olive_branch.Prelude.Tests.{◌==◌, ==_iff, Bool-cases}
use olive_branch.Prelude.Lists.{All, find, any}
use olive_branch.Prelude.Members.{Mem}

module _ {A : Type 0} where
  -- `p` is the first of the list that passes the test.
  pub record FirstOf (test : A → Bool) (xs : List A) (p : A) : Type 0 where
    pub earlier : List A
    pub later : List A
    pub places : xs ≡ earlier ++ p ∷ later
    pub passes : test p ≡ true
    pub fail_before : All (λ q. test q ≡ false) earlier

  pub All-map : (P Q : A → Type 0) (xs : List A) → ((x : A) → P x → Q x) → All P xs → All Q xs
  All-map P Q [] f h = tt
  All-map P Q (x ∷ xs) f (p, h) = (f x p, All-map P Q xs f h)

  some-head : (x y : A) → some x ≡ some y → x ≡ y
  some-head x y e = cc

  pub find-FirstOf :
      (test : A → Bool) (xs : List A) (p : A) → find test xs ≡ some p → FirstOf test xs p
  find-FirstOf test [] p e = absurd (cc)
  find-FirstOf test (x ∷ xs) p e = elim (Bool-cases (test x)) [
    | inl hit ↦
        let same : x ≡ p = some-head x p (rw (hit, find) at e) in
        record {
          earlier = [];
          later = xs;
          places = ap (λ z. z ∷ xs) same;
          passes = ap test (sym same) ∙ hit;
          fail_before = tt;
        }
    | inr miss ↦
        let f = find-FirstOf test xs p (rw (miss, find) at e) in
        record {
          earlier = x ∷ f.earlier;
          later = f.later;
          places = ap (λ l. x ∷ l) f.places;
          passes = f.passes;
          fail_before = (miss, f.fail_before);
        }
  ]

  pub find-split :
      (test : A → Bool) (earlier later : List A) (p : A)
      → test p ≡ true
      → All (λ q. test q ≡ false) earlier
      → find test (earlier ++ p ∷ later) ≡ some p
  find-split test [] later p hit h = rw (hit, find) refl
  find-split test (x ∷ xs) later p hit (miss, h) =
      rw (miss, find) (find-split test xs later p hit h)

  pub find-holds : (p : A → Bool) (xs : List A) (x : A) → find p xs ≡ some x → p x ≡ true
  find-holds p [] x e = absurd (cc)
  find-holds p (y ∷ ys) x e = elim (Bool-cases (p y)) [
    | inl hit ↦ ap p (sym (some-head y x (rw (hit, find) at e))) ∙ hit
    | inr miss ↦ find-holds p ys x (rw (miss, find) at e)
  ]

  pub find-none : (p : A → Bool) (xs : List A) → find p xs ≡ none → (q : A) → Mem q xs → p q ≡ false
  find-none p [] e q m = absurd m
  find-none p (y ∷ ys) e q m = elim (Bool-cases (p y)) [
    | inl hit ↦ absurd (let e' : some y ≡ none = rw (hit, find) at e in cc)
    | inr miss ↦ elim m [
      | inl here ↦ ap p here ∙ miss
      | inr later ↦ find-none p ys (rw (miss, find) at e) q later
    ]
  ]

pub any-Mem : (x : ℕ) (xs : List ℕ) → (any (λ d. d == x) xs ≡ true) ↔ Mem x xs
any-Mem x [] = (λ h. absurd (cc), λ m. absurd m)
any-Mem x (y ∷ ys) =
    let (to, from) = any-Mem x ys in
    let (equal, same) = ==_iff y x in
    (
      λ h. elim (Bool-cases (y == x)) [
        | inl e ↦ inl (sym (equal e))
        | inr e ↦ inr (to (rw e at h))
      ],
      λ m. elim m [
        | inl e ↦ rw (same (sym e)) refl
        | inr r ↦ elim (Bool-cases (y == x)) [ inl e ↦ rw e refl | inr e ↦ rw e (from r) ]
      ],
    )
