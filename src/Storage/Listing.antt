-- ===== src/Storage/Listing.antt =====
-- What the digest of retention.ts lists.
use olive_branch.Prelude.{
  ℕ, ◌≤◌, ◌<◌, String, ◌≡◌, refl, sym, ap, subst, ◌↔◌, inl, inr, true, false, ◌&&◌, &&-split,
  Option, none, some, ◌⊎◌, some-injective, List, [], ◌∷◌, ltb, leb, Mem, Sorted, sort-Sorted,
  Mem-sort, IsOrder, Bool-cases, arith,
}
use olive_branch.Storage.Digest.{
  Artifact, Expiring, days_until, horizon, item, sooner, added, in_window, with_clock, due, all_due,
  expiring_soon,
}

sooner-IsOrder : IsOrder sooner
sooner-IsOrder = record {
  asymmetric = λ a b h. ground arith;
  cotransitive = λ a b c h k. ground arith;
}

-- Days are left exactly when the clock is ahead.
days_until_iff : (now t : ℕ) → (ltb 0 (days_until now t) ≡ true) ↔ (now < t)
days_until_iff now t = (λ h. ground arith, λ h. ground arith)

module _ (parse : String → Option ℕ) where
  -- An artifact that is not preserved, whose clock is ahead and within the lead.
  abbrev pub IsDue : ℕ → ℕ → Artifact → Expiring → Type 0
  IsDue now lead_days a e =
      (a.preserved ≡ false)
      × ((text : String) × (t : ℕ) × (a.expires_at ≡ some text)
          × (parse text ≡ some t)
          × (now < t)
          × (t ≤ horizon now lead_days)
          × (e ≡ item a text now t))

  in_window-IsDue :
      (a : Artifact) (text : String) (now lead_days : ℕ) (o : Option ℕ) (e : Expiring)
      → in_window parse a text now lead_days o ≡ some e
      → (t : ℕ) × (o ≡ some t) × (now < t) × (t ≤ horizon now lead_days) × (e ≡ item a text now t)
  in_window-IsDue a text now lead_days none e h = absurd (cc)
  in_window-IsDue a text now lead_days (some t) e h =
      elim (Bool-cases (ltb 0 (days_until now t) && leb t (horizon now lead_days))) [
        | inl ok ↦
            let (ahead, near) = &&-split _ _ ok in
            let h' : some (item a text now t) ≡ some e = rw ok at h in
            (t, refl, (days_until_iff now t).0 ahead, ground arith, sym (some-injective _ _ h'))
        | inr out ↦ absurd (let h' : none ≡ some e = rw out at h in cc)
      ]

  IsDue-in_window :
      (a : Artifact) (text : String) (now lead_days t : ℕ)
      → now < t
      → t ≤ horizon now lead_days
      → in_window parse a text now lead_days (some t) ≡ some (item a text now t)
  IsDue-in_window a text now lead_days t ahead near =
      elim (Bool-cases (ltb 0 (days_until now t) && leb t (horizon now lead_days))) [
        | inl ok ↦ rw ok refl
        | inr out ↦ let first = (days_until_iff now t).1 ahead in absurd (ground arith)
      ]

  with_clock-IsDue :
      (a : Artifact) (now lead_days : ℕ) (clock : Option String) (e : Expiring)
      → a.expires_at ≡ clock
      → a.preserved ≡ false
      → with_clock parse a now lead_days clock ≡ some e
      → IsDue now lead_days a e
  with_clock-IsDue a now lead_days none e c p h = absurd (cc)
  with_clock-IsDue a now lead_days (some text) e c p h =
      let (t, parsed, ahead, near, same) = in_window-IsDue a text now lead_days (parse text) e h in
      (p, (text, t, c, parsed, ahead, near, same))

  due_iff :
      (a : Artifact) (now lead_days : ℕ) (e : Expiring)
      → (due parse now lead_days a ≡ some e) ↔ IsDue now lead_days a e
  due_iff a now lead_days e = (
    λ h. elim (Bool-cases a.preserved) [
      | inl kept ↦ absurd (let h' : none ≡ some e = rw kept at h in cc)
      | inr p ↦
          let h' : with_clock parse a now lead_days a.expires_at ≡ some e = rw p at h in
          with_clock-IsDue a now lead_days a.expires_at e refl p h'
    ],
    λ d.
        let (p, clock) = d in
        let (text, t, c, parsed, ahead, near, same) = clock in
        rw (p, c, parsed, same) (IsDue-in_window a text now lead_days t ahead near),
  )

  Mem-added :
      (e : Expiring) (o : Option Expiring) (rest : List Expiring)
      → Mem e (added o rest) ↔ ((o ≡ some e) ⊎ Mem e rest)
  Mem-added e none rest = (λ m. inr m, λ m. elim m [ inl h ↦ absurd (cc) | inr r ↦ r ])
  Mem-added e (some d) rest = (
    λ m. elim m [ inl h ↦ inl (ap some (sym h)) | inr r ↦ inr r ],
    λ m. elim m [ inl h ↦ inl (sym (some-injective _ _ h)) | inr r ↦ inr r ],
  )

  Mem-all_due :
      (now lead_days : ℕ) (artifacts : List Artifact) (e : Expiring)
      → Mem e (all_due parse now lead_days artifacts)
        ↔ ((a : Artifact) × Mem a artifacts × IsDue now lead_days a e)
  unfolding all_due
  Mem-all_due now lead_days [] e = (λ m. absurd m, λ (a, m, d). m)
  Mem-all_due now lead_days (a ∷ rest) e =
      let (split, join) =
        Mem-added e (due parse now lead_days a) (all_due parse now lead_days rest) in
      let (to, from) = Mem-all_due now lead_days rest e in
      let (found, kept) = due_iff a now lead_days e in
      (
        λ m. elim (split m) [
          | inl h ↦ (a, inl refl, found h)
          | inr r ↦ let (b, mb, d) = to r in (b, inr mb, d)
        ],
        λ (b, mb, d). elim mb [
          | inl same ↦ join (inl (kept (subst (λ c. IsDue now lead_days c e) same d)))
          | inr r ↦ join (inr (from (b, r, d)))
        ],
      )

  -- The digest lists its items in the order of the whole days left, the fewest first, where the days
  -- are rounded up and nothing is said of two items with the same number of days; and it lists exactly
  -- the artifacts that are not preserved, whose expiry parses, is later than `now` and is at most the
  -- lead days away.
  pub expiring_soon-IsComplete :
      (artifacts : List Artifact) (now lead_days : ℕ)
      → Sorted sooner (expiring_soon parse artifacts now lead_days).items
        × ((e : Expiring)
            → Mem e (expiring_soon parse artifacts now lead_days).items
              ↔ ((a : Artifact) × Mem a artifacts × IsDue now lead_days a e))
  unfolding expiring_soon
  expiring_soon-IsComplete artifacts now lead_days = (
    sort-Sorted sooner sooner-IsOrder (all_due parse now lead_days artifacts),
    λ e.
        let (to, from) = Mem-sort sooner e (all_due parse now lead_days artifacts) in
        let (here, back) = Mem-all_due now lead_days artifacts e in
        (λ m. here (to m), λ d. from (back d)),
  )
