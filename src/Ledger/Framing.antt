-- ===== src/Ledger/Framing.antt =====
-- ledger.ts: the length-prefixed framing of `entryHash`, and that it can be undone.
use olive_branch.Prelude.{
  ℕ, zero, suc, ◌+◌, ◌*◌, ◌-◌, ◌/◌, ◌%◌, ◌<◌, ◌≡◌, refl, ◌≢◌, List, [], ◌∷◌, ◌++◌, ltb,
  if◌then◌else◌, length, All, arith, ap, sym, ◌∙◌, append_assoc, Bool-cases, inl, inr,
}

abbrev pub Text : Type 0
Text = List ℕ

-- `String(n)`, digits before `acc`, with one round of fuel for each digit.
unfoldable pub decimal_from : ℕ → ℕ → Text → Text
decimal_from zero n acc = acc
decimal_from (suc fuel) n acc =
    let rest = decimal_from fuel (n / 10) ((48 + n % 10) ∷ acc) in
    if ltb n 10 then (48 + n) ∷ acc else rest

unfoldable pub decimal : ℕ → Text
unfolding decimal_from
decimal n = decimal_from (suc n) n []

-- `${String(s).length}:${s}`
unfoldable pub frame : Text → Text
unfolding decimal
frame s = decimal (length s) ++ b':' ∷ s

value_from : ℕ → Text → ℕ
value_from v [] = v
value_from v (c ∷ cs) = value_from (v * 10 + (c - 48)) cs

value-decimal_from :
    (fuel n : ℕ) (acc : Text) → n < fuel → value_from 0 (decimal_from fuel n acc) ≡ value_from n acc
unfolding decimal_from value_from
value-decimal_from zero n acc h = absurd (omega arith)
value-decimal_from (suc fuel) n acc h = elim (Bool-cases (ltb n 10)) [
  | inl small ↦
      rw small (let e : 0 * 10 + (48 + n - 48) ≡ n = omega arith in ap (λ v. value_from v acc) e)
  | inr large ↦ rw large (
      value-decimal_from fuel (n / 10) _ (ground arith)
      ∙ (let e : n / 10 * 10 + (48 + n % 10 - 48) ≡ n = omega arith in
          ap (λ v. value_from v acc) e))
]

abbrev NoColon : Text → Type 0
NoColon = All (λ c. c ≢ b':')

decimal_from-NoColon : (fuel n : ℕ) (acc : Text) → NoColon acc → NoColon (decimal_from fuel n acc)
unfolding decimal_from
decimal_from-NoColon zero n acc h = h
decimal_from-NoColon (suc fuel) n acc h = elim (Bool-cases (ltb n 10)) [
  | inl small ↦ rw small (ground arith, h)
  | inr large ↦ rw large (decimal_from-NoColon fuel (n / 10) _ (λ e. omega arith, h))
]

-- The text before the first colon decides where it is.
cut_colon :
    (a b r s : Text) → NoColon a → NoColon b → a ++ b':' ∷ r ≡ b ++ b':' ∷ s → (a ≡ b) × (r ≡ s)
cut_colon [] [] r s h k e = (refl, cc)
cut_colon [] (y ∷ b) r s h k e = absurd (k.0 (cc))
cut_colon (x ∷ a) [] r s h k e = absurd (h.0 (cc))
cut_colon (x ∷ a) (y ∷ b) r s h k e =
    let (same, rest) = cut_colon a b r s h.1 k.1 (cc) in (cc, rest)

cut_length : (a b r s : Text) → length a ≡ length b → a ++ r ≡ b ++ s → (a ≡ b) × (r ≡ s)
cut_length [] [] r s l e = (refl, e)
cut_length [] (y ∷ b) r s l e = absurd (omega arith)
cut_length (x ∷ a) [] r s l e = absurd (omega arith)
cut_length (x ∷ a) (y ∷ b) r s l e =
    let (same, rest) = cut_length a b r s (omega arith) (cc) in (cc, rest)

pub decimal-injective : (m n : ℕ) → decimal m ≡ decimal n → m ≡ n
unfolding decimal value_from
decimal-injective m n e =
    sym (value-decimal_from (suc m) m [] (omega arith))
    ∙ ap (value_from 0) e
    ∙ value-decimal_from (suc n) n [] (omega arith)

decimal-NoColon : (n : ℕ) → NoColon (decimal n)
unfolding decimal
decimal-NoColon n = decimal_from-NoColon (suc n) n [] tt

-- No bytes can move across the end of a framed field.
pub frame-injective : (a b r s : Text) → frame a ++ r ≡ frame b ++ s → (a ≡ b) × (r ≡ s)
unfolding frame
frame-injective a b r s e =
    let (same_length, rest) =
      cut_colon (decimal (length a)) (decimal (length b)) (a ++ r) (b ++ s)
        (decimal-NoColon (length a)) (decimal-NoColon (length b))
        (sym (append_assoc (decimal (length a)) (b':' ∷ a) r)
          ∙ e
          ∙ append_assoc (decimal (length b)) (b':' ∷ b) s) in
    cut_length a b r s (decimal-injective _ _ same_length) rest
