-- ===== src/Audit.antt =====
-- The audits of views, which signal/src/signal.ts and games/src/games.ts have alike: a walk over a value
-- of unknown shape that collects the forbidden keys.
use olive_branch.Prelude.{
  ℕ, String, ◌≡◌, refl, ◌↔◌, ◌⊎◌, inl, inr, Bool, true, false, ◌&&◌, List, [], ◌∷◌, ◌++◌, ◌==◌,
  if◌then◌else◌, any, Mem, Bool-cases, ap, ◌∙◌, lower_case, codes,
}
pub mod Reported
pub mod Views
pub mod Words
mod Tests

mutual
  pub data Value : Type 0 where
    leaf : Value
    array : Values → Value
    object : Entries → Value

  pub data Values : Type 0 where
    nil : Values
    cons : Value → Values → Values

  pub data Entries : Type 0 where
    end : Entries
    entry : String → Value → Entries → Entries

-- A forbidden key, as it stands, and what is in the value behind it.
abbrev pub leak_if : Bool → String → List String → List String
leak_if true key rest = key ∷ rest
leak_if false key rest = rest

module _ (forbidden : String → Bool) where
  unfoldable mutual
    pub walk : Value → List String
    walk leaf = []
    walk (array vs) = walk_items vs
    walk (object es) = walk_entries es

    pub walk_items : Values → List String
    walk_items nil = []
    walk_items (cons v vs) = walk v ++ walk_items vs

    pub walk_entries : Entries → List String
    walk_entries end = []
    walk_entries (entry key v es) = leak_if (forbidden key) key (walk v ++ walk_entries es)

unfoldable mutual
  -- The key occurs at some depth of the value.
  pub Occurs : String → Value → Type 0
  Occurs k leaf = ⊥
  Occurs k (array vs) = OccursItem k vs
  Occurs k (object es) = OccursEntry k es

  pub OccursItem : String → Values → Type 0
  OccursItem k nil = ⊥
  OccursItem k (cons v vs) = Occurs k v ⊎ OccursItem k vs

  pub OccursEntry : String → Entries → Type 0
  OccursEntry k end = ⊥
  OccursEntry k (entry key v es) = (k ≡ key) ⊎ (Occurs k v ⊎ OccursEntry k es)

Mem-append : (k : String) (xs ys : List String) → Mem k (xs ++ ys) ↔ (Mem k xs ⊎ Mem k ys)
Mem-append k [] ys = (λ h. inr h, λ h. elim h [ inl e ↦ absurd e | inr m ↦ m ])
Mem-append k (x ∷ xs) ys =
    let (to, from) = Mem-append k xs ys in
    (
      λ h. elim h [
        | inl e ↦ inl (inl e)
        | inr m ↦ elim (to m) [ inl a ↦ inl (inr a) | inr b ↦ inr b ]
      ],
      λ h. elim h [
        | inl (inl e) ↦ inl e
        | inl (inr m) ↦ inr (from (inl m))
        | inr m ↦ inr (from (inr m))
      ],
    )

module _ (forbidden : String → Bool) where
  -- The key is among those collected exactly if it occurs and is forbidden.
  Collects : String → List String → Type 0 → Type 0
  Collects k found occurs = Mem k found ↔ (occurs × (forbidden k ≡ true))

  leak_if-Collects :
      (k key : String) (rest : List String) (within : Type 0)
      → Collects k rest within
      → Collects k (leak_if (forbidden key) key rest) ((k ≡ key) ⊎ within)
  unfolding Collects
  leak_if-Collects k key rest within (to, from) = elim (Bool-cases (forbidden key)) [
    | inl e ↦ rw e (
      λ h. elim h [ inl q ↦ (inl q, ap forbidden q ∙ e) | inr m ↦ let (o, f) = to m in (inr o, f) ],
      λ (o, f). elim o [ inl q ↦ inl q | inr w ↦ inr (from (w, f)) ],
    )
    | inr e ↦ rw e (
      λ h. let (o, f) = to h in (inr o, f),
      λ (o, f). elim o [ inl q ↦ (let g = ap forbidden q in absurd (cc)) | inr w ↦ from (w, f) ],
    )
  ]

  append-Collects :
      (k : String) (xs ys : List String) (one two : Type 0)
      → Collects k xs one
      → Collects k ys two
      → Collects k (xs ++ ys) (one ⊎ two)
  unfolding Collects
  append-Collects k xs ys one two (to, from) (to2, from2) =
      let (split, join) = Mem-append k xs ys in
      (
        λ h. elim (split h) [
          | inl a ↦ let (o, f) = to a in (inl o, f)
          | inr b ↦ let (o, f) = to2 b in (inr o, f)
        ],
        λ (o, f). elim o [ inl a ↦ join (inl (from (a, f))) | inr b ↦ join (inr (from2 (b, f))) ],
      )

  mutual
    unfolding walk Occurs Collects

    walk-Collects : (k : String) (v : Value) → Collects k (walk forbidden v) (Occurs k v)
    walk-Collects k leaf = (λ h. absurd h, λ h. absurd h.0)
    walk-Collects k (array vs) = items-Collects k vs
    walk-Collects k (object es) = entries-Collects k es

    items-Collects :
        (k : String) (vs : Values) → Collects k (walk_items forbidden vs) (OccursItem k vs)
    items-Collects k nil = (λ h. absurd h, λ h. absurd h.0)
    items-Collects k (cons v vs) =
        append-Collects k (walk forbidden v) (walk_items forbidden vs) (Occurs k v)
          (OccursItem k vs) (walk-Collects k v) (items-Collects k vs)

    entries-Collects :
        (k : String) (es : Entries) → Collects k (walk_entries forbidden es) (OccursEntry k es)
    entries-Collects k end = (λ h. absurd h, λ h. absurd h.0)
    entries-Collects k (entry key v es) =
        leak_if-Collects k key (walk forbidden v ++ walk_entries forbidden es)
          (Occurs k v ⊎ OccursEntry k es)
          (append-Collects k (walk forbidden v) (walk_entries forbidden es) (Occurs k v)
            (OccursEntry k es) (walk-Collects k v) (entries-Collects k es))

  -- What the walk collects, without the name.
  pub walk_iff :
      (k : String) (v : Value) → Mem k (walk forbidden v) ↔ (Occurs k v × (forbidden k ≡ true))
  unfolding Collects
  walk_iff k v = walk-Collects k v
