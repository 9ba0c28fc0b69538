-- ===== src/Session.antt =====
-- family-graph/src/session.ts: the wrapper that sets the context of row security. A call is modelled
-- by the list of what it does to the database connection, in order, and its outcome. The database is
-- not modelled: which of its calls fail is a parameter, as are the callback's queries and its outcome.
use olive_branch.Prelude.{
  Bool, true, false, not, ◌&&◌, ◌||◌, Option, none, some, List, [], ◌∷◌, ◌++◌, map, String,
  if◌then◌else◌, or_else, ◌≡◌,
}
pub mod Bracket
mod Tests

pub data RoleName : Type 0 where
  guardian child trusted_adult step_parent sitter : RoleName
  coordinator foster_parent caseworker therapist : RoleName

-- The text that is bound to `app.role`.
abbrev pub role_text : RoleName → String
role_text guardian = "guardian"
role_text child = "child"
role_text trusted_adult = "trusted_adult"
role_text step_parent = "step_parent"
role_text sitter = "sitter"
role_text coordinator = "coordinator"
role_text foster_parent = "foster_parent"
role_text caseworker = "caseworker"
role_text therapist = "therapist"

abbrev pub is_child_role : RoleName → Bool
is_child_role child = true
is_child_role _ = false

-- The type says `verified: true`; the code checks it at run time all the same.
pub record VerifiedPrincipal : Type 0 where
  pub verified : Bool
  pub user_id : Option String
  pub role_name : RoleName
  pub child_id : Option String

pub data Sql : Type 0 where
  begin_transaction commit rollback : Sql
  set_config : (role child_id user_id : String) → Sql
  other : (text : String) → Sql

pub data Effect : Type 0 where
  connected released : Effect
  query : Sql → Effect

pub data Fault : Type 0 where
  unverified_principal child_requires_child_id role_requires_user_id : Fault
  connect_failed : Fault
  query_failed : Sql → Fault
  callback_failed : (message : String) → Fault

pub data Outcome (T : Type 0) : Type 0 where
  returned : T → Outcome T
  thrown : Fault → Outcome T

-- What was done, and how it ended.
pub record Trace (T : Type 0) : Type 0 where
  pub effects : List Effect
  pub outcome : Outcome T

-- The callback: its queries, and how it ends.
pub record Callback (T : Type 0) : Type 0 where
  pub queries : List String
  pub result : Outcome T

-- Which calls of the database fail.
pub record Database : Type 0 where
  pub connects : Bool
  pub accepts : Sql → Bool

-- `!id`, which holds of null and of the empty text.
abbrev pub is_falsy : Option String → Bool
is_falsy none = true
is_falsy (some String.[]) = true
is_falsy (some (String.◌∷◌ c s)) = false

abbrev pub callback_query : String → Effect
callback_query text = query (other text)

abbrev pub context_of : VerifiedPrincipal → Sql
context_of ctx =
    set_config (role_text ctx.role_name) (or_else ctx.child_id "") (or_else ctx.user_id "")

-- The three checks before a connection is taken.
unfoldable pub session_fault : VerifiedPrincipal → Option Fault
session_fault ctx =
    if not ctx.verified
    then some unverified_principal
    else if is_child_role ctx.role_name && is_falsy ctx.child_id
    then some child_requires_child_id
    else if not (is_child_role ctx.role_name) && is_falsy ctx.user_id
    then some role_requires_user_id
    else none

module _ {T : Type 0} where
  -- One more effect before a trace.
  abbrev pub after : Effect → Trace T → Trace T
  after e t = record { effects = e ∷ t.effects; outcome = t.outcome }

  -- The callback, and COMMIT if it returns.
  abbrev pub complete : Database → List Effect → Outcome T → Trace T
  complete db effects (thrown e) = record { effects = effects; outcome = thrown e }
  complete db effects (returned x) = record {
    effects = effects ++ query commit ∷ [];
    outcome = if db.accepts commit then returned x else thrown (query_failed commit);
  }

  -- The end of the try block.
  unfoldable pub finish : Database → Callback T → Trace T
  finish db fn = complete db (map callback_query fn.queries) fn.result

  -- The try block, on a connection, with the given context.
  unfoldable pub transaction : Database → Sql → Callback T → Trace T
  transaction db context fn =
      if not (db.accepts begin_transaction)
      then record {
        effects = query begin_transaction ∷ [];
        outcome = thrown (query_failed begin_transaction);
      }
      else if not (db.accepts context)
      then record {
        effects = query begin_transaction ∷ query context ∷ [];
        outcome = thrown (query_failed context);
      }
      else after (query begin_transaction) (after (query context) (finish db fn))

  -- `catch` and `finally`: a failing ROLLBACK is swallowed, so its outcome does not matter.
  abbrev pub close : List Effect → Outcome T → Trace T
  close effects (returned x) = record { effects = effects ++ released ∷ []; outcome = returned x }
  close effects (thrown e) = record {
    effects = effects ++ query rollback ∷ released ∷ [];
    outcome = thrown e;
  }

  unfoldable pub settle : Trace T → Trace T
  settle t = close t.effects t.outcome

  unfoldable pub on_connection : Database → Sql → Callback T → Trace T
  on_connection db context fn =
      if db.connects
      then after connected (settle (transaction db context fn))
      else record { effects = []; outcome = thrown connect_failed }

  unfoldable pub with_session : Database → VerifiedPrincipal → Callback T → Trace T
  with_session db ctx fn = elim (session_fault ctx) [
    | some e ↦ record { effects = []; outcome = thrown e }
    | none ↦ on_connection db (context_of ctx) fn
  ]

  unfoldable pub with_system_session : Database → Callback T → Trace T
  with_system_session db fn = on_connection db (set_config "system" "" "") fn
