-- ===== src/Rooms/Session.antt =====
-- rooms.ts: a session, the grant of one principal in it, and the token. The random room name and
-- id are arguments, and so is the present instant.
use olive_branch.Prelude.{
  ℕ, ◌*◌, String, Bool, true, false, not, ◌||◌, Option, none, some, List, [], ◌∷◌, if◌then◌else◌,
  str_eq, any, leaks,
}
use olive_branch.Family.Authorize.{LadderStep, none_step, supervised, Edge, call, Decision, can}
use olive_branch.Family.Authorize

pub data SessionKind : Type 0 where
  call_kind homework game canvas storybook : SessionKind

pub record SessionRecord : Type 0 where
  pub id : String
  pub child_id : String
  pub room_name : String
  pub kind : SessionKind
  pub created_by : String
  pub authorized_user_ids : List String
  pub ladder_step : LadderStep
  pub recorded : Bool
  pub created_at : ℕ
  pub ended_at : Option ℕ

-- `hidden` is `some false` where the code sets it, and `none` where it leaves it out. The literal
-- types `true` and `false` of the other fields are written out.
pub record Grant : Type 0 where
  pub room_join : Bool
  pub room : String
  pub can_publish : Bool
  pub can_subscribe : Bool
  pub can_publish_data : Bool
  pub can_update_own_metadata : Bool
  pub hidden : Option Bool

pub record MintedToken : Type 0 where
  pub identity : String
  pub room : String
  pub grant : Grant
  pub ttl_seconds : ℕ
  pub recorded : Bool
  pub disclosure : Option String

pub data MintDenial : Type 0 where
  not_authorized not_a_participant session_ended ladder_none : MintDenial

abbrev pub token_ttl_seconds : ℕ
token_ttl_seconds = 10 * 60

abbrev pub includes_id : List String → String → Bool
includes_id ids id = any (λ x. str_eq x id) ids

-- `[...new Set(ids)]`: the first of each, in order. `seen` holds what was kept so far.
abbrev pub dedupe_from : List String → List String → List String
dedupe_from seen [] = []
dedupe_from seen (x ∷ xs) = elim (includes_id seen x) [
  | true ↦ dedupe_from seen xs
  | false ↦ x ∷ dedupe_from (x ∷ seen) xs
]

pub record NewSession : Type 0 where
  pub child_id : String
  pub kind : SessionKind
  pub created_by : String
  pub authorized_user_ids : List String
  pub ladder_step : LadderStep

abbrev pub is_none_step : LadderStep → Bool
is_none_step none_step = true
is_none_step _ = false

abbrev pub is_supervised : LadderStep → Bool
is_supervised supervised = true
is_supervised _ = false

-- `none` is either of the two thrown errors.
unfoldable pub create_session : NewSession → (room_name id : String) → ℕ → Option SessionRecord
create_session input room_name id now =
    if is_none_step input.ladder_step
    then none
    else if leaks room_name (input.child_id ∷ input.created_by ∷ [])
    then none
    else some (record {
      id = id;
      child_id = input.child_id;
      room_name = room_name;
      kind = input.kind;
      created_by = input.created_by;
      authorized_user_ids = dedupe_from [] input.authorized_user_ids;
      ladder_step = input.ladder_step;
      recorded = is_supervised input.ladder_step;
      created_at = now;
      ended_at = none;
    })

pub record Principal : Type 0 where
  pub user_id : String
  pub observer_only : Bool
  pub is_child : Bool
  pub role_name : Option String

unfoldable pub derive_grant : SessionRecord → Principal → Grant
derive_grant session principal = record {
  room_join = true;
  room = session.room_name;
  can_publish = not principal.observer_only;
  can_subscribe = true;
  can_publish_data = not principal.observer_only;
  can_update_own_metadata = false;
  hidden = if principal.observer_only then some false else none;
}

pub data MintResult : Type 0 where
  ok : MintedToken → MintResult
  err : MintDenial → MintResult

abbrev pub has_ended : Option ℕ → Bool
has_ended none = false
has_ended (some t) = true

abbrev pub is_allow : Authorize.Decision → Bool
is_allow Decision.allow = true
is_allow (Decision.deny d) = false

abbrev pub recording_notice : String
recording_notice =
    "This visit is being recorded and can be watched later by the person helping your family."

-- The token of a principal who has passed every check.
unfoldable pub minted : SessionRecord → Principal → MintedToken
unfolding derive_grant
minted session principal = record {
  identity = principal.user_id;
  room = session.room_name;
  grant = derive_grant session principal;
  ttl_seconds = token_ttl_seconds;
  recorded = session.recorded;
  disclosure = if session.recorded then some recording_notice else none;
}

unfoldable pub mint_token : SessionRecord → Principal → List Edge → ℕ → MintResult
unfolding minted
mint_token session principal edges now =
    if has_ended session.ended_at
    then err session_ended
    else if is_none_step session.ladder_step
    then err ladder_none
    else if not (
        principal.is_child
        || is_allow (can call edges session.child_id now principal.role_name false))
    then err not_authorized
    else if not (includes_id session.authorized_user_ids principal.user_id)
    then err not_a_participant
    else ok (minted session principal)
