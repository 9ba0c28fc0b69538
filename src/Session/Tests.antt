-- ===== src/Session/Tests.antt =====
-- The theorems on session.ts at concrete calls.
use olive_branch.Prelude.{ℕ, ◌≡◌, ◌⊎◌, true, none, some, [], ◌∷◌}
use olive_branch.Session.{
  child, VerifiedPrincipal, Fault, thrown, Callback, returned, Database, context_of, with_session,
}
use olive_branch.Session.Bracket.{IsAcceptable, IsBracketed, with_session-IsBracketed}

abbrev mia : VerifiedPrincipal
mia = record { verified = true; user_id = none; role_name = child; child_id = some "mia" }

abbrev database : Database
database = record { connects = true; accepts = λ q. true }

abbrev reads : Callback ℕ
reads = record { queries = "SELECT 1" ∷ []; result = returned 1 }

with_session-IsBracketed_example :
    ((¬ (IsAcceptable mia))
      × ((with_session database mia reads).effects ≡ [])
      × ((e : Fault) × ((with_session database mia reads).outcome ≡ thrown e)))
    ⊎ (IsAcceptable mia
        × IsBracketed database (context_of mia) reads (with_session database mia reads))
with_session-IsBracketed_example = with_session-IsBracketed database mia reads
