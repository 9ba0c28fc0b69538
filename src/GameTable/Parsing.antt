-- ===== src/GameTable/Parsing.antt =====
-- What the parse of table.ts accepts.
use olive_branch.Prelude.{
  ◌≤◌, String, ◌≡◌, refl, Bool, true, false, not, Option, some, List, [], ◌∷◌, arith, ◌↔◌, le→leb,
  eq_iff, any, All, ◌⊎◌, ap, sym, subst,
}
use olive_branch.GameTable.Table.{ClientMoveMessage, Cell}
use olive_branch.GameTable.Messages.{
  Json, bool, num, str, arr, obj, nil, item, Fields, get, keys, board_max, is_cell, is_move,
  as_bool, is_allowed, message, parse_client_message,
}

-- A cell on the wire.
abbrev pub cell_json : Cell → Json
cell_json c = arr (item (num c.0) (item (num c.1) nil))

abbrev pub OnBoard : Cell → Type 0
OnBoard c = (c.0 ≤ board_max) × (c.1 ≤ board_max)

abbrev pub AllowedKey : String → Type 0
AllowedKey k = (k ≡ "type") ⊎ (k ≡ "from") ⊎ (k ≡ "to") ⊎ (k ≡ "continues")

-- The object says exactly this message, and has no other key.
pub record Says (fs : Fields) (m : ClientMoveMessage) : Type 0 where
  pub type_move : get "type" fs ≡ some (str "move")
  pub from_cell : get "from" fs ≡ some (cell_json m.from)
  pub from_board : OnBoard m.from
  pub to_cell : get "to" fs ≡ some (cell_json m.to)
  pub to_board : OnBoard m.to
  pub continues_flag : get "continues" fs ≡ some (bool m.continues)
  pub no_other : All AllowedKey (keys fs)

is_cell-some :
    (o : Option Json) (c : Cell) → is_cell o ≡ some c → (o ≡ some (cell_json c)) × OnBoard c
unfolding is_cell
is_cell-some (some (arr (item (num x) (item (num y) nil)))) c h = ground arith
is_cell-some _ c h = cc

is_cell-json : (c : Cell) → OnBoard c → is_cell (some (cell_json c)) ≡ some c
unfolding is_cell
is_cell-json c h = ground (arith, le→leb c.0 board_max, le→leb c.1 board_max)

obj-injective : (fs gs : Fields) → obj fs ≡ obj gs → fs ≡ gs
obj-injective fs gs h = cc

is_move-some : (o : Option Json) → is_move o ≡ true → o ≡ some (str "move")
is_move-some (some (str s)) h = ap (λ x. some (str x)) ((eq_iff s "move").0 h)
is_move-some _ h = cc

as_bool-some : (o : Option Json) (b : Bool) → as_bool o ≡ some b → o ≡ some (bool b)
as_bool-some (some (bool b)) c h = ground arith
as_bool-some _ c h = cc

allowed_iff : (k : String) → (is_allowed k ≡ true) ↔ AllowedKey k
allowed_iff k =
    ground (arith, eq_iff k "type", eq_iff k "from", eq_iff k "to", eq_iff k "continues")

none_disallowed :
    (ks : List String) → (any (λ k. not (is_allowed k)) ks ≡ false) ↔ All AllowedKey ks
none_disallowed [] = (λ h. tt, λ h. refl)
none_disallowed (k ∷ ks) =
    let (to, from) = none_disallowed ks in
    (
      λ h. ((allowed_iff k).0 (ground arith), to (ground arith)),
      λ h. rw ((allowed_iff k).1 h.0, from h.1),
    )

message-some :
    (a b : Option Cell) (c : Option Bool) (m : ClientMoveMessage)
    → message a b c ≡ some m
    → (a ≡ some m.from) × (b ≡ some m.to) × (c ≡ some m.continues)
message-some (some a) (some b) (some c) m h = ground arith
message-some _ _ _ m h = cc

obj_parsed :
    (fs : Fields) (m : ClientMoveMessage)
    → parse_client_message (obj fs) ≡ some m
    → (is_move (get "type" fs) ≡ true)
      × (any (λ k. not (is_allowed k)) (keys fs) ≡ false)
      × (message (is_cell (get "from" fs)) (is_cell (get "to" fs)) (as_bool (get "continues" fs))
          ≡ some m)
unfolding parse_client_message
obj_parsed fs m h = ground arith

parsed-Says :
    (fs : Fields) (m : ClientMoveMessage) → parse_client_message (obj fs) ≡ some m → Says fs m
parsed-Says fs m h =
    let (is_type, others, parts) = obj_parsed fs m h in
    let (from, to, flag) = message-some _ _ _ m parts in
    let (from_json, from_in) = is_cell-some _ _ from in
    let (to_json, to_in) = is_cell-some _ _ to in
    record {
      type_move = is_move-some _ is_type;
      from_cell = from_json;
      from_board = from_in;
      to_cell = to_json;
      to_board = to_in;
      continues_flag = as_bool-some _ _ flag;
      no_other = (none_disallowed (keys fs)).0 others;
    }

Says-parsed :
    (fs : Fields) (m : ClientMoveMessage) → Says fs m → parse_client_message (obj fs) ≡ some m
unfolding parse_client_message
Says-parsed fs m s = rw (
  s.type_move,
  (none_disallowed (keys fs)).1 s.no_other,
  s.from_cell,
  is_cell-json m.from s.from_board,
  s.to_cell,
  is_cell-json m.to s.to_board,
  s.continues_flag,
)

-- A value is read as a message exactly when it is an object that says this message: `type` is
-- 'move', `from` and `to` are cells of the board, `continues` is a flag, and no key but these four
-- is there, so that a seat or anything else the client adds is refused.
pub parse_client_message_iff :
    (j : Json) (m : ClientMoveMessage)
    → (parse_client_message j ≡ some m) ↔ ((fs : Fields) × (j ≡ obj fs) × Says fs m)
unfolding parse_client_message
parse_client_message_iff (obj fs) m = (
  λ h. (fs, refl, parsed-Says fs m h),
  λ h. Says-parsed fs m (subst (λ x. Says x m) (sym (obj-injective fs h.0 h.1)) h.2),
)
parse_client_message_iff _ m = (λ h. cc, λ h. cc (h.1))
