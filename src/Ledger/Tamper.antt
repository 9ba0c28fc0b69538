-- ===== src/Ledger/Tamper.antt =====
-- Tamper evidence of the chain of ledger.ts.
use olive_branch.Prelude.{
  ◌+◌, ◌≡◌, refl, ◌≢◌, ◌⊎◌, inl, inr, Bool, true, false, not, List, [], ◌∷◌, arith, length, list_lt,
  ap, subst, sym, ◌∙◌, Bool-cases, ==_iff,
}
use olive_branch.Ledger.Framing.{Text, frame-injective, decimal-injective}
use olive_branch.Ledger.Chain.{
  LogEntry, ChainFault, text_eq, serial, last_entry, head_hash, unless, entry_hash, link_faults,
  faults_after, verify_chain,
}

pub text_eq_refl : (a : Text) → text_eq a a ≡ true
text_eq_refl [] = refl
text_eq_refl (x ∷ xs) = ground (arith, text_eq_refl xs)

pub text_eq-eq : (a b : Text) → text_eq a b ≡ true → a ≡ b
text_eq-eq [] [] h = refl
text_eq-eq (x ∷ xs) (y ∷ ys) h = ground (arith, text_eq-eq xs ys)
text_eq-eq _ _ h = cc

ne_self : (a b : Text) → a ≡ b → text_eq a b ≡ false → ⊥
ne_self a b q other =
    ground (arith, text_eq_refl a, subst (λ c. text_eq a c ≡ true) q (text_eq_refl a))

-- The entries agree in every field that is hashed.
pub record SameContent (e f : LogEntry) : Type 0 where
  pub seq : e.seq ≡ f.seq
  pub child_id : e.child_id ≡ f.child_id
  pub author_id : e.author_id ≡ f.author_id
  pub at : e.at ≡ f.at
  pub body : e.body ≡ f.body
  pub prev_hash : e.prev_hash ≡ f.prev_hash

-- The framing is faithful: entries whose hashed texts are equal agree in every field.
pub serial-SameContent : (e f : LogEntry) → serial e ≡ serial f → SameContent e f
unfolding serial
serial-SameContent e f h =
    let (seq, h1) = frame-injective _ _ _ _ h in
    let (child, h2) = frame-injective _ _ _ _ h1 in
    let (author, h3) = frame-injective _ _ _ _ h2 in
    let (at, h4) = frame-injective _ _ _ _ h3 in
    let (body, h5) = frame-injective _ _ _ _ h4 in
    let (prev, h6) = frame-injective _ _ _ _ h5 in
    record {
      seq = decimal-injective _ _ seq;
      child_id = child;
      author_id = author;
      at = at;
      body = body;
      prev_hash = prev;
    }

pub unless-empty :
    (b : Bool) (f : ChainFault) (fs : List ChainFault) → unless b f fs ≡ [] → (b ≡ true) × (fs ≡ [])
unless-empty true f fs h = (refl, h)
unless-empty false f fs h = cc

not-true : (b : Bool) → not b ≡ true → b ≡ false
not-true b h = ground arith

module _ (sha256_hex : Text → Text) where
  -- Two different texts with one hash.
  abbrev pub Collision : Type 0
  Collision = (a : Text) × (b : Text) × (a ≢ b) × (sha256_hex a ≡ sha256_hex b)

  -- What a chain without faults is, entry by entry.
  abbrev pub IsSealed : LogEntry → Type 0
  IsSealed e = entry_hash sha256_hex e ≡ e.hash

  abbrev pub Continues : LogEntry → List LogEntry → Type 0
  Continues prev [] = Unit
  Continues prev (e ∷ es) =
      IsSealed e
      × (e.prev_hash ≡ prev.hash)
      × (e.seq ≡ prev.seq + 1)
      × (list_lt e.at prev.at ≡ false)
      × Continues e es

  pub faults_after-Continues :
      (prev : LogEntry) (es : List LogEntry)
      → faults_after sha256_hex prev es ≡ []
      → Continues prev es
  unfolding faults_after link_faults
  faults_after-Continues prev [] h = tt
  faults_after-Continues prev (e ∷ es) h =
      let (sealed, h1) = unless-empty _ _ _ h in
      let (linked, h2) = unless-empty _ _ _ h1 in
      let (next, h3) = unless-empty _ _ _ h2 in
      let (ordered, h4) = unless-empty _ _ _ h3 in
      (
        text_eq-eq _ _ sealed,
        text_eq-eq _ _ linked,
        (==_iff _ _).0 next,
        not-true _ ordered,
        faults_after-Continues e es h4,
      )

  same_hash :
      (e f : LogEntry)
      → IsSealed e
      → IsSealed f
      → e.hash ≡ f.hash
      → Collision ⊎ ((e ≡ f) × (e.prev_hash ≡ f.prev_hash))
  unfolding entry_hash
  same_hash e f se sf h = elim (Bool-cases (text_eq (serial e) (serial f))) [
    | inl same ↦
        let c = serial-SameContent e f (text_eq-eq _ _ same) in
        inr (ground (arith, c, h), c.prev_hash)
    | inr other ↦
        inl (serial e, serial f, λ q. ne_self (serial e) (serial f) q other, se ∙ h ∙ sym sf)
  ]

  -- Two runs of entries of one length whose last entries have the same hash.
  same_run :
      (e f : LogEntry) (es fs : List LogEntry)
      → IsSealed e
      → IsSealed f
      → Continues e es
      → Continues f fs
      → length es ≡ length fs
      → (last_entry e es).hash ≡ (last_entry f fs).hash
      → Collision ⊎ ((e ≡ f) × (es ≡ fs))
  same_run e f [] [] se sf ce cf l h = elim (same_hash e f se sf h) [
    | inl collision ↦ inl collision
    | inr (same, _) ↦ inr (same, refl)
  ]
  same_run e f [] (y ∷ fs) se sf ce cf l h = absurd (omega arith)
  same_run e f (x ∷ es) [] se sf ce cf l h = absurd (omega arith)
  same_run e f (x ∷ es) (y ∷ fs) se sf (sx, lx, nx, ox, cx) (sy, ly, ny, oy, cy) l h =
      elim (same_run x y es fs sx sy cx cy (omega arith) h) [
        | inl collision ↦ inl collision
        | inr (same, rest) ↦ elim (same_hash e f se sf (sym lx ∙ ap (λ z. z.prev_hash) same ∙ ly)) [
          | inl collision ↦ inl collision
          | inr (first, _) ↦ inr (first, cc)
        ]
      ]

  -- Tamper evidence. Two chains without faults that have as many entries and the same head hash
  -- are the same chain, entry by entry, or else they exhibit two different texts with one hash.
  pub verify_chain_unique :
      (chain other : List LogEntry)
      → verify_chain sha256_hex chain ≡ []
      → verify_chain sha256_hex other ≡ []
      → length chain ≡ length other
      → head_hash chain ≡ head_hash other
      → Collision ⊎ (chain ≡ other)
  unfolding verify_chain head_hash
  verify_chain_unique [] [] v w l h = inr refl
  verify_chain_unique [] (y ∷ fs) v w l h = absurd (omega arith)
  verify_chain_unique (x ∷ es) [] v w l h = absurd (omega arith)
  verify_chain_unique (x ∷ es) (y ∷ fs) v w l h =
      let (gx, v1) = unless-empty _ _ _ v in
      let (sx, v2) = unless-empty _ _ _ v1 in
      let (gy, w1) = unless-empty _ _ _ w in
      let (sy, w2) = unless-empty _ _ _ w1 in
      elim (same_run x y es fs (text_eq-eq _ _ sx) (text_eq-eq _ _ sy)
        (faults_after-Continues x es v2) (faults_after-Continues y fs w2) (omega arith) h) [
          | inl collision ↦ inl collision
          | inr (first, rest) ↦ inr (cc)
        ]
