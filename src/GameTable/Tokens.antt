-- ===== src/GameTable/Tokens.antt =====
-- table.ts: join tokens. A token is a text, as its code points. The functions of Node.js that it is
-- made with are parameters: the signature, its base64url text, and the base64url text of a JSON
-- value; `Codec` names what the code relies on.
use olive_branch.Prelude.{
  ℕ, ◌+◌, ◌*◌, String, ◌≡◌, ◌≢◌, Bool, true, false, not, ◌&&◌, Option, none, some, List, [], ◌∷◌,
  ◌++◌, ltb, ◌==◌, if◌then◌else◌, All, str_eq,
}
use mathlib.Core.Option
use olive_branch.Family.Authorize.{Role, role_name}
use olive_branch.GameTable.Principals.{TablePrincipal, adult, child}
use olive_branch.GameTable.Table.{Seat, seat_0, seat_1, Decoded}
use olive_branch.GameTable.Messages.{Json, num, str, obj, end, field, get}

abbrev pub Text : Type 0
Text = List ℕ

abbrev pub NoDot : Text → Type 0
NoDot = All (λ c. c ≢ b'.')

pub record Codec : Type 0 where
  -- `createHmac('sha256', secret).update(payload).digest()`, as bytes.
  pub hmac : Text → Text → List ℕ
  -- Bytes as base64url text, and back.
  pub mac_text : List ℕ → Text
  pub mac_bytes : Text → List ℕ
  -- `Buffer.from(JSON.stringify(v)).toString('base64url')`, and back; `none` is a thrown error.
  pub payload_of : Json → Text
  pub json_of : Text → Option Json
  pub mac_bytes-text : (b : List ℕ) → mac_bytes (mac_text b) ≡ b
  pub mac_text-NoDot : (b : List ℕ) → NoDot (mac_text b)
  pub json_of-payload : (v : Json) → json_of (payload_of v) ≡ some v
  pub payload-nonempty : (v : Json) → payload_of v ≢ []

abbrev pub seat_number : Seat → ℕ
seat_number seat_0 = 0
seat_number seat_1 = 1

abbrev pub principal_json : TablePrincipal → Json
principal_json (adult u r) =
    obj (
      field "kind" (str "adult")
        (field "userId" (str u) (field "roleName" (str (role_name r)) end)))
principal_json (child c) = obj (field "kind" (str "child") (field "childId" (str c) end))

abbrev pub body_json : String → Seat → TablePrincipal → ℕ → Json
body_json table_id seat principal exp = obj (
    field "tableId" (str table_id) (
      field "seat" (num (seat_number seat))
        (field "principal" (principal_json principal) (field "exp" (num exp) end))))

pub data JoinTokenFailure : Type 0 where
  malformed bad_signature expired : JoinTokenFailure

pub data ReadJoinTokenResult : Type 0 where
  ok : Decoded → ReadJoinTokenResult
  err : JoinTokenFailure → ReadJoinTokenResult

-- The text before and after the last dot, if there is one: `lastIndexOf('.')` and the two slices.
unfoldable pub split_last : Text → Option (Text × Text)
split_last [] = none
split_last (c ∷ cs) = elim (split_last cs) [
  | some (before, after) ↦ some (c ∷ before, after)
  | none ↦ if c == b'.' then some ([], cs) else none
]

-- `mac.length !== expect.length || !timingSafeEqual(mac, expect)`, negated.
abbrev pub same_bytes : List ℕ → List ℕ → Bool
same_bytes [] [] = true
same_bytes (x ∷ xs) (y ∷ ys) = (x == y) && same_bytes xs ys
same_bytes _ _ = false

abbrev pub as_text : Option Json → Option String
as_text (some (str s)) = some s
as_text _ = none

abbrev pub as_seat : Option Json → Option Seat
as_seat (some (num n)) = if n == 0 then some seat_0 else if n == 1 then some seat_1 else none
as_seat _ = none

abbrev pub kind_is : String → Option Json → Bool
kind_is k (some (str s)) = str_eq s k
kind_is k _ = false

abbrev pub role_of_name : String → Option Role
role_of_name s =
    if str_eq s "guardian"
    then some Role.guardian
    else if str_eq s "trusted_adult"
    then some Role.trusted_adult
    else if str_eq s "step_parent"
    then some Role.step_parent
    else if str_eq s "sitter"
    then some Role.sitter
    else if str_eq s "coordinator"
    then some Role.coordinator
    else if str_eq s "foster_parent"
    then some Role.foster_parent
    else if str_eq s "caseworker"
    then some Role.caseworker
    else if str_eq s "therapist"
    then some Role.therapist
    else none

abbrev adult_of : Option String → Option String → Option TablePrincipal
adult_of (some u) (some r) = Option.map (adult u) (role_of_name r)
adult_of _ _ = none

-- The principal of a token, if it has the shape of one. The code takes any text for a role; a
-- signed token only ever holds one of the eight, and any other is refused here.
unfoldable pub as_principal : Option Json → Option TablePrincipal
as_principal (some (obj fs)) =
    if kind_is "adult" (get "kind" fs)
    then adult_of (as_text (get "userId" fs)) (as_text (get "roleName" fs))
    else if kind_is "child" (get "kind" fs)
    then Option.map child (as_text (get "childId" fs))
    else none
as_principal _ = none

-- `typeof body?.exp !== 'number' || body.exp <= now`, negated. A number that is not whole is taken
-- for expired: no minted token has one.
abbrev pub is_fresh : Option Json → ℕ → Bool
is_fresh (some (num exp)) now = ltb now exp
is_fresh _ now = false

abbrev pub decoded : Option String → Option Seat → Option TablePrincipal → ReadJoinTokenResult
decoded (some t) (some s) (some p) = ok (record { table_id = t; seat = s; principal = p })
decoded _ _ _ = err malformed

-- The checks on the parsed body, in order.
unfoldable pub read_body : Option Json → ℕ → ReadJoinTokenResult
unfolding as_principal
read_body none now = err malformed
read_body (some (obj fs)) now =
    if not (is_fresh (get "exp" fs) now)
    then err expired
    else decoded (as_text (get "tableId" fs)) (as_seat (get "seat" fs))
        (as_principal (get "principal" fs))
read_body (some _) now = err expired

module _ (k : Codec) where
  unfoldable pub mint_join_token : Text → String → Seat → TablePrincipal → ℕ → ℕ → Text
  mint_join_token secret table_id seat principal now ttl_seconds =
      let payload = k.payload_of (body_json table_id seat principal (now + ttl_seconds * 1000)) in
      payload ++ b'.' ∷ k.mac_text (k.hmac secret payload)

  -- What follows once the token is cut at its last dot; a dot in front is no cut (`dot < 1`).
  unfoldable pub read_parts : Text → Option (Text × Text) → ℕ → ReadJoinTokenResult
  unfolding read_body
  read_parts secret none now = err malformed
  read_parts secret (some ([], mac)) now = err malformed
  read_parts secret (some (c ∷ cs, mac)) now =
      if same_bytes (k.mac_bytes mac) (k.hmac secret (c ∷ cs))
      then read_body (k.json_of (c ∷ cs)) now
      else err bad_signature

  unfoldable pub read_join_token : Text → Text → ℕ → ReadJoinTokenResult
  unfolding read_parts split_last
  read_join_token secret token now = read_parts secret (split_last token) now
