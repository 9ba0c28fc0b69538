-- ===== src/Ledger/Chain.antt =====
-- ledger.ts: the hash chain, its verification, and the certified export. The hash `sha256Hex`, from
-- texts to texts, and the text of a bundle `JSON.stringify(chain)` are parameters.
use olive_branch.Prelude.{
  ℕ, suc, ◌+◌, Bool, true, false, not, ◌&&◌, Option, none, some, List, [], ◌∷◌, ◌++◌, ◌==◌, list_lt,
}
use olive_branch.Ledger.Framing.{Text, decimal, frame}

pub record LogEntry : Type 0 where
  pub seq : ℕ
  pub child_id : Text
  pub author_id : Text
  pub at : Text
  pub body : Text
  pub prev_hash : Text
  pub hash : Text

pub record Input : Type 0 where
  pub child_id : Text
  pub author_id : Text
  pub at : Text
  pub body : Text

-- `'0'.repeat(64)`
abbrev pub repeat : ℕ → ℕ → Text
repeat c ℕ.zero = []
repeat c (suc n) = c ∷ repeat c n

pub genesis : Text
genesis = repeat b'0' 64

abbrev pub text_eq : Text → Text → Bool
text_eq [] [] = true
text_eq (x ∷ xs) (y ∷ ys) = (x == y) && text_eq xs ys
text_eq _ _ = false

-- What `entryHash` hashes.
unfoldable pub serial : LogEntry → Text
serial e =
    frame (decimal e.seq)
    ++ (frame e.child_id
        ++ (frame e.author_id ++ (frame e.at ++ (frame e.body ++ (frame e.prev_hash ++ [])))))

pub data ChainFault : Type 0 where
  content_altered chain_broken sequence_gap time_travel : (seq : ℕ) → ChainFault
  bad_genesis : ChainFault

abbrev pub last_entry : LogEntry → List LogEntry → LogEntry
last_entry e [] = e
last_entry e (x ∷ xs) = last_entry x xs

-- `chain[chain.length - 1]`, if there is one.
abbrev pub last_of : List LogEntry → Option LogEntry
last_of [] = none
last_of (e ∷ es) = some (last_entry e es)

unfoldable pub head_hash : List LogEntry → Text
head_hash chain = elim (last_of chain) [ none ↦ genesis | some e ↦ e.hash ]

-- One fault, if the test fails.
abbrev pub unless : Bool → ChainFault → List ChainFault → List ChainFault
unless true f fs = fs
unless false f fs = f ∷ fs

module _ (sha256_hex : Text → Text) where
  unfoldable pub entry_hash : LogEntry → Text
  entry_hash e = sha256_hex (serial e)

  abbrev seal_entry : LogEntry → LogEntry
  seal_entry e = record e { hash = entry_hash e }

  -- The next entry. The hash field of the base is not read by `entryHash`.
  unfoldable pub append : List LogEntry → Input → LogEntry
  unfolding head_hash entry_hash
  append chain input = seal_entry (record {
    seq = elim (last_of chain) [ none ↦ 0 | some e ↦ e.seq + 1 ];
    child_id = input.child_id;
    author_id = input.author_id;
    at = input.at;
    body = input.body;
    prev_hash = head_hash chain;
    hash = [];
  })

  -- The faults of an entry against the one before it, before the faults `rest`.
  unfoldable pub link_faults : LogEntry → LogEntry → List ChainFault → List ChainFault
  link_faults prev e rest = unless (text_eq e.prev_hash prev.hash) (chain_broken e.seq) (
      unless (e.seq == prev.seq + 1) (sequence_gap e.seq)
        (unless (not (list_lt e.at prev.at)) (time_travel e.seq) rest))

  -- The loop after its first round.
  unfoldable pub faults_after : LogEntry → List LogEntry → List ChainFault
  faults_after prev [] = []
  faults_after prev (e ∷ es) =
      unless (text_eq (entry_hash e) e.hash) (content_altered e.seq)
        (link_faults prev e (faults_after e es))

  -- `verifyChain`: the list of faults, empty for `ok: true`.
  unfoldable pub verify_chain : List LogEntry → List ChainFault
  verify_chain [] = []
  verify_chain (e ∷ es) =
      unless (text_eq e.prev_hash genesis) bad_genesis
        (unless (text_eq (entry_hash e) e.hash) (content_altered e.seq) (faults_after e es))
