-- ===== src/GameTable/Messages.antt =====
-- table.ts: the parse of an inbound client message. A value of the wire is what `JSON.parse` gives,
-- with no key twice in an object; `num` is a whole number from 0 on, `other_num` any other number.
use olive_branch.Prelude.{
  ℕ, String, Bool, false, not, ◌&&◌, ◌||◌, Option, none, some, List, [], ◌∷◌, leb, ltb,
  if◌then◌else◌, str_eq, any,
}
use olive_branch.GameTable.Table.{ClientMoveMessage, Cell}

mutual
  pub data Json : Type 0 where
    null : Json
    bool : Bool → Json
    num : ℕ → Json
    other_num : Json
    str : String → Json
    arr : Items → Json
    obj : Fields → Json

  pub data Items : Type 0 where
    nil : Items
    item : Json → Items → Items

  pub data Fields : Type 0 where
    end : Fields
    field : String → Json → Fields → Fields

-- `o.key`, `none` for `undefined`.
unfoldable pub get : String → Fields → Option Json
get key end = none
get key (field k v fs) = if str_eq k key then some v else get key fs

abbrev pub keys : Fields → List String
keys end = []
keys (field k v fs) = k ∷ keys fs

-- `BOARD_MAX`
abbrev pub board_max : ℕ
board_max = 7

-- `isCell`, with the cell that it recognises.
unfoldable pub is_cell : Option Json → Option Cell
is_cell (some (arr (item (num x) (item (num y) nil)))) =
    if leb x board_max && leb y board_max then some (x, y) else none
is_cell _ = none

abbrev pub is_move : Option Json → Bool
is_move (some (str s)) = str_eq s "move"
is_move _ = false

abbrev pub as_bool : Option Json → Option Bool
as_bool (some (bool b)) = some b
as_bool _ = none

abbrev pub is_allowed : String → Bool
is_allowed k = str_eq k "type" || (str_eq k "from" || (str_eq k "to" || str_eq k "continues"))

-- The message of the three fields, if all are there.
abbrev pub message : Option Cell → Option Cell → Option Bool → Option ClientMoveMessage
message (some from) (some to) (some continues) =
    some (record { from = from; to = to; continues = continues })
message _ _ _ = none

-- An array has no field `type`, so it is refused like any value that is not an object.
unfoldable pub parse_client_message : Json → Option ClientMoveMessage
parse_client_message (obj fs) =
    if not (is_move (get "type" fs))
    then none
    else if any (λ k. not (is_allowed k)) (keys fs)
    then none
    else message (is_cell (get "from" fs)) (is_cell (get "to" fs)) (as_bool (get "continues" fs))
parse_client_message _ = none

abbrev pub max_message_bytes : ℕ
max_message_bytes = 1024

-- `messageTooLarge`, of the number of bytes of the raw frame.
abbrev pub message_too_large : ℕ → Bool
message_too_large bytes = ltb max_message_bytes bytes
