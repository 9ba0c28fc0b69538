-- ===== src/Ledger/Export.antt =====
-- ledger.ts: who may export, the attestation of a certified export, and its verification.
use olive_branch.Prelude.{
  ℕ, ◌≡◌, refl, ◌↔◌, ◌⊎◌, Bool, true, false, not, Option, none, some, List, [], ◌∷◌, ◌++◌, arith,
  ltb, ◌==◌, ==_iff, length, map, if◌then◌else◌, ◌<◌, ◌≤◌,
}
use olive_branch.Ledger.Framing.{Text}
use olive_branch.Ledger.Chain.{LogEntry, ChainFault, text_eq, head_hash, verify_chain, last_of}
use olive_branch.Ledger.Tamper.{Collision, text_eq_refl, text_eq-eq, verify_chain_unique}

pub data ExportKind : Type 0 where
  raw certified : ExportKind

pub record ExportRequest : Type 0 where
  pub kind : ExportKind
  pub child_id : Text
  pub requested_by : Text
  pub court_tier : Bool
  pub certified_in_last_12_months : ℕ

pub data ExportDenial : Type 0 where
  tier_required annual_allowance_used : ExportDenial

pub data ExportDecision : Type 0 where
  granted : (free : Bool) → ExportDecision
  refused : ExportDenial → ExportDecision

abbrev pub free_certified_per_year : ℕ
free_certified_per_year = 1

abbrev pub is_raw : ExportKind → Bool
is_raw raw = true
is_raw certified = false

unfoldable pub authorize_export : ExportRequest → ExportDecision
authorize_export r =
    if is_raw r.kind
    then granted true
    else if ltb r.certified_in_last_12_months free_certified_per_year
    then granted true
    else if not r.court_tier
    then refused tier_required
    else granted false

-- An export costs nothing exactly if it is raw or the first certified one in twelve months; one that
-- costs is granted exactly on the court tier, and whatever is refused is refused for the tier.
pub authorize_export_iff :
    (r : ExportRequest)
    → ((authorize_export r ≡ granted true) ↔ ((r.kind ≡ raw) ⊎ (r.certified_in_last_12_months < 1)))
      × ((authorize_export r ≡ granted false)
          ↔ ((r.kind ≡ certified) × (1 ≤ r.certified_in_last_12_months) × (r.court_tier ≡ true)))
      × ((d : ExportDenial) → authorize_export r ≡ refused d → d ≡ tier_required)
unfolding authorize_export
authorize_export_iff r = (ground arith, ground arith, λ d h. ground arith)

-- The statement that the attestation prints follows `chain_verified`, and is left out.
pub record Attestation : Type 0 where
  pub child_id : Text
  pub generated_at : Text
  pub entry_count : ℕ
  pub first_seq : Option ℕ
  pub last_seq : Option ℕ
  pub head_hash : Text
  pub bundle_hash : Text
  pub chain_verified : Bool

pub data Reason : Type 0 where
  fault : ChainFault → Reason
  count_differs head_differs bundle_differs : Reason

abbrev pub is_empty : List ChainFault → Bool
is_empty [] = true
is_empty (f ∷ fs) = false

abbrev pub seq_of : Option LogEntry → Option ℕ
seq_of none = none
seq_of (some e) = some e.seq

abbrev pub first_of : List LogEntry → Option LogEntry
first_of [] = none
first_of (e ∷ es) = some e

abbrev pub reason_unless : Bool → Reason → List Reason
reason_unless true r = []
reason_unless false r = r ∷ []

append-empty {ℓ} : {A : Type ℓ} (xs ys : List A) → xs ++ ys ≡ [] → (xs ≡ []) × (ys ≡ [])
append-empty [] ys h = (refl, h)
append-empty (x ∷ xs) ys h = cc

map_fault-empty : (fs : List ChainFault) → map fault fs ≡ [] → fs ≡ []
map_fault-empty [] h = refl
map_fault-empty (f ∷ fs) h = cc

reason_unless-empty : (b : Bool) (r : Reason) → reason_unless b r ≡ [] → b ≡ true
reason_unless-empty true r h = refl
reason_unless-empty false r h = cc

reason_unless-true : (b : Bool) (r : Reason) → b ≡ true → reason_unless b r ≡ []
reason_unless-true b r e = rw e refl

module _ (sha256_hex : Text → Text) (json_text : List LogEntry → Text) where
  unfoldable pub certify : List LogEntry → Text → Text → Attestation
  certify chain child_id at = record {
    child_id = child_id;
    generated_at = at;
    entry_count = length chain;
    first_seq = seq_of (first_of chain);
    last_seq = seq_of (last_of chain);
    head_hash = head_hash chain;
    bundle_hash = sha256_hex (json_text chain);
    chain_verified = is_empty (verify_chain sha256_hex chain);
  }

  -- The reasons against an exported file, none for `ok: true`.
  unfoldable pub verify_export : List LogEntry → Attestation → List Reason
  verify_export chain att =
      map fault (verify_chain sha256_hex chain)
      ++ (reason_unless (length chain == att.entry_count) count_differs
          ++ (reason_unless (text_eq (head_hash chain) att.head_hash) head_differs
              ++ reason_unless (text_eq (sha256_hex (json_text chain)) att.bundle_hash)
                  bundle_differs))

  -- An export verifies against its own attestation exactly when its chain has no fault.
  pub verify_export-certify :
      (chain : List LogEntry) (child_id at : Text)
      → (verify_export chain (certify chain child_id at) ≡ [])
        ↔ (verify_chain sha256_hex chain ≡ [])
  unfolding verify_export certify
  verify_export-certify chain child_id at = (
    λ h. map_fault-empty _ (append-empty _ _ h).0,
    λ h.
        rw
          (
            h,
            reason_unless-true _ count_differs ((==_iff (length chain) _).1 refl),
            reason_unless-true _ head_differs (text_eq_refl (head_hash chain)),
            reason_unless-true _ bundle_differs (text_eq_refl (sha256_hex (json_text chain))),
          )
          refl,
  )

  -- If the chain that was certified has no fault, then a file that verifies against its attestation
  -- is that chain, entry by entry, or else two different texts with one hash are at hand.
  pub verify_export_unique :
      (chain file : List LogEntry) (child_id at : Text)
      → verify_chain sha256_hex chain ≡ []
      → verify_export file (certify chain child_id at) ≡ []
      → Collision sha256_hex ⊎ (file ≡ chain)
  unfolding verify_export certify
  verify_export_unique chain file child_id at v h =
      let (faults, h1) = append-empty _ _ h in
      let (count, h2) = append-empty _ _ h1 in
      let (head, _) = append-empty _ _ h2 in
      verify_chain_unique sha256_hex file chain (map_fault-empty _ faults) v
        ((==_iff _ _).0 (reason_unless-empty _ _ count))
        (text_eq-eq _ _ (reason_unless-empty _ _ head))
