-- ===== src/Ledger/Building.antt =====
-- A chain of ledger.ts that is built by `append`.
use olive_branch.Prelude.{
  ◌≡◌, refl, Bool, true, false, not, List, [], ◌∷◌, ◌++◌, arith, list_lt, ==_iff,
}
use olive_branch.Ledger.Framing.{Text}
use olive_branch.Ledger.Chain.{
  LogEntry, Input, ChainFault, genesis, text_eq, serial, last_entry, unless, entry_hash, append,
  link_faults, faults_after, verify_chain,
}
use olive_branch.Ledger.Tamper.{text_eq_refl, unless-empty, Continues, faults_after-Continues}

unless-both :
    (b : Bool) (f : ChainFault) (fs : List ChainFault) → b ≡ true → fs ≡ [] → unless b f fs ≡ []
unless-both true f fs h e = e
unless-both false f fs h e = cc

text_eq_of : (a b : Text) → a ≡ b → text_eq a b ≡ true
text_eq_of a b e = rw e (text_eq_refl b)

not_before : (b : Bool) → b ≡ false → not b ≡ true
not_before b h = ground arith

-- The instant of the new entry is not before that of the last one, as texts compare.
abbrev pub NotEarlier : List LogEntry → Text → Type 0
NotEarlier [] at = Unit
NotEarlier (e ∷ es) at = list_lt at (last_entry e es).at ≡ false

module _ (sha256_hex : Text → Text) where
  Continues-faults_after :
      (prev : LogEntry) (es : List LogEntry)
      → Continues sha256_hex prev es
      → faults_after sha256_hex prev es ≡ []
  unfolding faults_after link_faults
  Continues-faults_after prev [] h = refl
  Continues-faults_after prev (e ∷ es) (sealed, linked, next, ordered, rest) =
      unless-both _ _ _ (text_eq_of _ _ sealed) (
        unless-both _ _ _ (text_eq_of _ _ linked) (
          unless-both _ _ _ ((==_iff _ _).1 next)
            (unless-both _ _ _ (not_before _ ordered) (Continues-faults_after e es rest))))

  -- The entry may stand behind `prev`.
  Extends : LogEntry → LogEntry → Type 0
  Extends prev e = Continues sha256_hex prev (e ∷ [])

  Continues-snoc :
      (prev : LogEntry) (es : List LogEntry) (e : LogEntry)
      → Continues sha256_hex prev es
      → Extends (last_entry prev es) e
      → Continues sha256_hex prev (es ++ e ∷ [])
  unfolding Extends
  Continues-snoc prev [] e h x = x
  Continues-snoc prev (y ∷ es) e (sealed, linked, next, ordered, rest) x =
      (sealed, linked, next, ordered, Continues-snoc y es e rest x)

  append-Extends :
      (e : LogEntry) (es : List LogEntry) (i : Input)
      → NotEarlier (e ∷ es) i.at
      → Extends (last_entry e es) (append sha256_hex (e ∷ es) i)
  unfolding append entry_hash serial Extends
  append-Extends e es i h = (refl, refl, refl, h, tt)

  Continues-verify_chain :
      (e : LogEntry) (es : List LogEntry)
      → text_eq e.prev_hash genesis ≡ true
      → text_eq (entry_hash sha256_hex e) e.hash ≡ true
      → Continues sha256_hex e es
      → verify_chain sha256_hex (e ∷ es) ≡ []
  unfolding verify_chain
  Continues-verify_chain e es first sealed rest =
      unless-both _ _ _ first (unless-both _ _ _ sealed (Continues-faults_after e es rest))

  verify_chain-Continues :
      (e : LogEntry) (es : List LogEntry)
      → verify_chain sha256_hex (e ∷ es) ≡ []
      → (text_eq e.prev_hash genesis ≡ true)
        × (text_eq (entry_hash sha256_hex e) e.hash ≡ true)
        × Continues sha256_hex e es
  unfolding verify_chain
  verify_chain-Continues e es v =
      let (first, v1) = unless-empty _ _ _ v in
      let (sealed, v2) = unless-empty _ _ _ v1 in
      (first, sealed, faults_after-Continues sha256_hex e es v2)

  -- A chain without faults stays one when `append` adds an entry that is not dated before the last
  -- one.
  pub verify_chain-append :
      (chain : List LogEntry) (i : Input)
      → verify_chain sha256_hex chain ≡ []
      → NotEarlier chain i.at
      → verify_chain sha256_hex (chain ++ append sha256_hex chain i ∷ []) ≡ []
  verify_chain-append [] i v h =
      unfold append entry_hash serial in
      Continues-verify_chain (append sha256_hex [] i) [] (text_eq_refl genesis)
        (text_eq_refl (entry_hash sha256_hex (append sha256_hex [] i))) tt
  verify_chain-append (e ∷ es) i v h =
      let (first, sealed, rest) = verify_chain-Continues e es v in
      Continues-verify_chain e (es ++ append sha256_hex (e ∷ es) i ∷ []) first sealed
        (Continues-snoc e es _ rest (append-Extends e es i h))
