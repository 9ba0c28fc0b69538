-- ===== src/Audit/Reported.antt =====
-- A list of leaks without repetitions, as the audits report it.
use olive_branch.Prelude.{
  String, ◌≡◌, refl, ◌↔◌, inl, Bool, true, false, List, [], ◌∷◌, Mem, ne_true,
}
use olive_branch.Rooms.Session.{dedupe_from}
use olive_branch.Audit.{Value, walk, Occurs, walk_iff}

dedupe-empty : (xs : List String) → (dedupe_from [] xs ≡ []) ↔ (xs ≡ [])
dedupe-empty [] = (λ h. h, λ h. h)
dedupe-empty (x ∷ xs) = (λ h. cc, λ h. cc)

no-Mem : (xs : List String) → ((k : String) → ¬ Mem k xs) → xs ≡ []
no-Mem [] f = refl
no-Mem (x ∷ xs) f = absurd (f x (inl refl))

Mem-none : (k : String) (xs : List String) → xs ≡ [] → ¬ Mem k xs
Mem-none k [] e m = m
Mem-none k (x ∷ xs) e m = cc

clash : (b : Bool) → b ≡ false → b ≡ true → ⊥
clash b e f = cc

-- Nothing is reported exactly when no key of the value, at any depth, is forbidden.
pub reported_iff :
    (forbidden : String → Bool) (v : Value)
    → (dedupe_from [] (walk forbidden v) ≡ []) ↔ ((k : String) → Occurs k v → forbidden k ≡ false)
reported_iff forbidden v =
    let (to, from) = dedupe-empty (walk forbidden v) in
    (
      λ h k o. ne_true _ (λ f. Mem-none k _ (to h) ((walk_iff forbidden k v).1 (o, f))),
      λ h. from (
          no-Mem _
            (λ k m. let (o, f) = (walk_iff forbidden k v).0 m in clash (forbidden k) (h k o) f)),
    )
