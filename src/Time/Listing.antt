-- ===== src/Time/Listing.antt =====
-- The dates of a batch, time.ts.
use olive_branch.Prelude.{
  ℕ, zero, suc, ◌+◌, ◌-◌, ◌≤◌, ◌<◌, String, ◌≡◌, refl, sym, ◌∙◌, ap, subst, ◌↔◌, ◌⊎◌, inl, inr,
  true, Mem, Bool-cases, ◌==◌, ==_iff, arith,
}
use olive_branch.Time.Luxon.{Luxon}
use olive_branch.Time.Dates.{Cadence, keeps, enumerate_from, enumerate_local_dates}

module _ (l : Luxon) where
  -- A day from `d` on, within `left` days, that the cadence keeps and that has this text.
  abbrev Kept : ℕ → ℕ → Cadence → ℕ → String → Type 0
  Kept left d cadence start text =
      (n : ℕ) × (d ≤ n) × (n < d + left) × (keeps l cadence start n ≡ true) × (text ≡ l.iso_date n)

  enumerate-step :
      (left d : ℕ) (cadence : Cadence) (start : ℕ) (text : String)
      → Mem text (enumerate_from l (suc left) d cadence start) ↔ (
          ((keeps l cadence start d ≡ true) × (text ≡ l.iso_date d))
          ⊎ Mem text (enumerate_from l left (suc d) cadence start))
  unfolding enumerate_from
  enumerate-step left d cadence start text = elim (Bool-cases (keeps l cadence start d)) [
    | inl k ↦ rw k (
      λ m. elim m [ inl e ↦ inl (refl, e) | inr r ↦ inr r ],
      λ m. elim m [ inl e ↦ inl e.1 | inr r ↦ inr r ],
    )
    | inr k ↦ rw k (λ m. inr m, λ m. elim m [ inl e ↦ absurd (cc) | inr r ↦ r ])
  ]

  enumerate_from-Kept :
      (left d : ℕ) (cadence : Cadence) (start : ℕ) (text : String)
      → Mem text (enumerate_from l left d cadence start)
      → Kept left d cadence start text
  enumerate_from-Kept zero d cadence start text m = unfold enumerate_from in absurd m
  enumerate_from-Kept (suc left) d cadence start text m =
      elim ((enumerate-step left d cadence start text).0 m) [
        | inl e ↦ (d, omega arith, omega arith, e.0, e.1)
        | inr r ↦
            let (n, low, high, k, same) = enumerate_from-Kept left (suc d) cadence start text r in
            (n, omega arith, omega arith, k, same)
      ]

  Kept-enumerate_from :
      (left d : ℕ) (cadence : Cadence) (start : ℕ) (text : String)
      → Kept left d cadence start text
      → Mem text (enumerate_from l left d cadence start)
  Kept-enumerate_from zero d cadence start text (n, low, high, k, same) = absurd (omega arith)
  Kept-enumerate_from (suc left) d cadence start text (n, low, high, k, same) =
      (enumerate-step left d cadence start text).1 (elim (Bool-cases (d == n)) [
        | inl e ↦
            let e' = (==_iff d n).0 e in
            inl (
              subst (λ x. keeps l cadence start x ≡ true) (sym e') k,
              same ∙ ap l.iso_date (sym e'),
            )
        | inr e ↦ inr (
            Kept-enumerate_from left (suc d) cadence start text
              (n, ground arith, omega arith, k, same))
      ])

  -- A date is listed exactly when it is the text of a day, from the first day to the last one, that
  -- the cadence keeps.
  pub enumerate_local_dates_iff :
      (start_local end_local : String) (cadence : Cadence) (text : String)
      → Mem text (enumerate_local_dates l start_local end_local cadence) ↔ (
          (n : ℕ) × (l.day_of start_local ≤ n)
          × (n ≤ l.day_of end_local)
          × (keeps l cadence (l.day_of start_local) n ≡ true)
          × (text ≡ l.iso_date n))
  unfolding enumerate_local_dates
  enumerate_local_dates_iff start_local end_local cadence text =
      let first = l.day_of start_local in
      let left = suc (l.day_of end_local) - first in
      (
        λ m.
            let (n, low, high, k, same) = enumerate_from-Kept left first cadence first text m in
            (n, low, omega arith, k, same),
        λ h.
            let (n, low, high, k, same) = h in
            Kept-enumerate_from left first cadence first text (n, low, omega arith, k, same),
      )
