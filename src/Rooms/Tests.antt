-- ===== src/Rooms/Tests.antt =====
-- The theorems on rooms.ts at a concrete session.
use olive_branch.Prelude.{◌≡◌, refl, ◌↔◌, true, false, none, some, [], ◌∷◌, leaks}
use olive_branch.Family.Authorize.{supervised}
use olive_branch.Rooms.Session.{
  SessionKind, call_kind, SessionRecord, Grant, MintedToken, NewSession, create_session, Principal,
  mint_token, recording_notice,
}
use olive_branch.Rooms.Minting.{MayEnter, mint_token_iff}
use olive_branch.Rooms.Session

abbrev request : NewSession
request = record {
  child_id = "mia-child-id";
  kind = call_kind;
  created_by = "dad-user-id";
  authorized_user_ids = "dad" ∷ "mia" ∷ "dad" ∷ [];
  ladder_step = supervised;
}

abbrev made : SessionRecord
made = record {
  id = "1";
  child_id = "mia-child-id";
  room_name = "s_1";
  kind = call_kind;
  created_by = "dad-user-id";
  authorized_user_ids = "dad" ∷ "mia" ∷ [];
  ladder_step = supervised;
  recorded = true;
  created_at = 7;
  ended_at = none;
}

abbrev her : Principal
her = record { user_id = "mia"; observer_only = false; is_child = true; role_name = none }

created : create_session request "s_1" "1" 7 ≡ some made
unfolding create_session leaks
created = refl

mint_token_iff_example :
    ((t : MintedToken) × (mint_token made her [] 9 ≡ Session.ok t)) ↔ MayEnter made her [] 9
mint_token_iff_example = mint_token_iff made her [] 9

abbrev hers : MintedToken
hers = record {
  identity = "mia";
  room = "s_1";
  grant = record {
    room_join = true;
    room = "s_1";
    can_publish = true;
    can_subscribe = true;
    can_publish_data = true;
    can_update_own_metadata = false;
    hidden = none;
  };
  ttl_seconds = 600;
  recorded = true;
  disclosure = some recording_notice;
}

minted_hers : mint_token made her [] 9 ≡ Session.ok hers
unfolding mint_token
minted_hers = refl
