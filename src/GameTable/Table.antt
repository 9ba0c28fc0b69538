-- ===== src/GameTable/Table.antt =====
-- table.ts: the state of a table and the operations on it. Instants are in milliseconds.
use olive_branch.Prelude.{
  ℕ, ◌+◌, ◌*◌, String, Bool, true, false, not, ◌&&◌, Option, none, some, or_else, List, [], ◌∷◌,
  ltb, ◌==◌, if◌then◌else◌, str_eq, leaks,
}
use olive_branch.GameTable.Principals.{TablePrincipal, principal_key, principals_equal}
use olive_branch.GameTable.Rate.{RateBucket, new_rate_bucket, take_rate_token}

pub data TableGame : Type 0 where
  checkers : TableGame

pub data Seat : Type 0 where
  seat_0 seat_1 : Seat

abbrev pub same_seat : Seat → Seat → Bool
same_seat seat_0 seat_0 = true
same_seat seat_1 seat_1 = true
same_seat _ _ = false

-- `seat === 0 ? 1 : 0`
abbrev pub other_seat : Seat → Seat
other_seat seat_0 = seat_1
other_seat seat_1 = seat_0

abbrev pub Cell : Type 0
Cell = ℕ × ℕ

abbrev pub cell_equals : Cell → Cell → Bool
cell_equals a b = (a.0 == b.0) && (a.1 == b.1)

pub record ClientMoveMessage : Type 0 where
  pub from : Cell
  pub to : Cell
  pub continues : Bool

pub record ServerMoveMessage : Type 0 where
  pub seat : Seat
  pub from : Cell
  pub to : Cell
  pub continues : Bool

pub data TableStatus : Type 0 where
  pending active closed : TableStatus

pub data TableClosedReason : Type 0 where
  expired_unjoined peer_left max_lifetime closed_by_server : TableClosedReason

pub record SeatState : Type 0 where
  pub principal : TablePrincipal
  pub token_consumed : Bool
  pub connected : Bool
  pub rate : RateBucket

-- `seats` is the pair of both, `seats[0]` and `seats[1]`.
pub record TableState : Type 0 where
  pub id : String
  pub game : TableGame
  pub seats : SeatState × SeatState
  pub created_at : ℕ
  pub join_deadline : ℕ
  pub status : TableStatus
  pub closed_reason : Option TableClosedReason
  pub turn_seat : Seat
  pub last_move : Option (Seat × Cell)

abbrev pub seat_of : SeatState × SeatState → Seat → SeatState
seat_of seats seat_0 = seats.0
seat_of seats seat_1 = seats.1

abbrev pub set_seat : SeatState × SeatState → Seat → SeatState → SeatState × SeatState
set_seat seats seat_0 x = (x, seats.1)
set_seat seats seat_1 x = (seats.0, x)

abbrev pub table_token_ttl_seconds : ℕ
table_token_ttl_seconds = 3 * 60

abbrev pub table_max_lifetime_seconds : ℕ
table_max_lifetime_seconds = 60 * 60

unfoldable pub new_seat : TablePrincipal → ℕ → SeatState
new_seat p now = record {
  principal = p;
  token_consumed = false;
  connected = false;
  rate = new_rate_bucket now;
}

-- `none` is the thrown error. The id is the fresh random text of `newTableId`, or the caller's.
unfoldable pub create_table :
    TableGame → TablePrincipal × TablePrincipal → ℕ → String → Option ℕ → Option TableState
unfolding new_seat
create_table game principals now id join_ttl_seconds =
    if leaks id (principal_key principals.0 ∷ principal_key principals.1 ∷ [])
    then none
    else some (record {
      id = id;
      game = game;
      seats = (new_seat principals.0 now, new_seat principals.1 now);
      created_at = now;
      join_deadline = now + or_else join_ttl_seconds table_token_ttl_seconds * 1000;
      status = pending;
      closed_reason = none;
      turn_seat = seat_0;
      last_move = none;
    })

pub data JoinDenyReason : Type 0 where
  wrong_table seat_mismatch already_consumed table_closed expired : JoinDenyReason

pub data JoinResult : Type 0 where
  ok : TableState → JoinResult
  err : JoinDenyReason → JoinResult

-- What `readJoinToken` has read from a verified token.
pub record Decoded : Type 0 where
  pub table_id : String
  pub seat : Seat
  pub principal : TablePrincipal

abbrev pub is_closed : TableStatus → Bool
is_closed closed = true
is_closed _ = false

abbrev pub is_pending : TableStatus → Bool
is_pending pending = true
is_pending _ = false

abbrev pub is_active : TableStatus → Bool
is_active active = true
is_active _ = false

-- The state after the token of a seat was redeemed.
unfoldable pub joined : TableState → Seat → ℕ → TableState
joined t seat now =
    let seats = set_seat t.seats seat (record (seat_of t.seats seat) {
      token_consumed = true;
      connected = true;
      rate = new_rate_bucket now;
    }) in
    record t {
      seats = seats;
      status = if seats.0.connected && seats.1.connected then active else pending;
    }

unfoldable pub redeem_join : TableState → Decoded → ℕ → JoinResult
unfolding joined
redeem_join t decoded now =
    if is_closed t.status
    then err table_closed
    else if ltb t.join_deadline now && is_pending t.status
    then err expired
    else if not (str_eq decoded.table_id t.id)
    then err wrong_table
    else if not (principals_equal (seat_of t.seats decoded.seat).principal decoded.principal)
    then err seat_mismatch
    else if (seat_of t.seats decoded.seat).token_consumed
    then err already_consumed
    else ok (joined t decoded.seat now)

unfoldable pub on_seat_disconnected : TableState → Seat → TableState
on_seat_disconnected t seat = record t {
  seats = set_seat t.seats seat (record (seat_of t.seats seat) { connected = false });
  status = closed;
  closed_reason = some peer_left;
}

unfoldable pub close_table : TableState → TableClosedReason → TableState
close_table t reason = record t { status = closed; closed_reason = some reason }

unfoldable pub is_expired_unjoined : TableState → ℕ → Bool
is_expired_unjoined t now = is_pending t.status && ltb t.join_deadline now

unfoldable pub is_past_max_lifetime : TableState → ℕ → Bool
is_past_max_lifetime t now = ltb (t.created_at + table_max_lifetime_seconds * 1000) now

pub data MoveDenyReason : Type 0 where
  table_not_active out_of_turn rate_limited invalid_continuation : MoveDenyReason

pub data ApplyMoveResult : Type 0 where
  relayed : TableState → ServerMoveMessage → ApplyMoveResult
  refused : MoveDenyReason → TableState → ApplyMoveResult

-- `last && last.seat === seat && !cellEquals(last.to, msg.from)`
abbrev pub breaks_chain : Option (Seat × Cell) → Seat → Cell → Bool
breaks_chain none seat from = false
breaks_chain (some (s, to)) seat from = same_seat s seat && not (cell_equals to from)

-- The table with the bucket of one seat replaced.
abbrev pub with_rate : TableState → Seat → RateBucket → TableState
with_rate t seat bucket = record t {
  seats = set_seat t.seats seat (record (seat_of t.seats seat) { rate = bucket });
}

unfoldable pub apply_incoming_move : TableState → Seat → ClientMoveMessage → ℕ → ApplyMoveResult
apply_incoming_move t seat msg now =
    if not (is_active t.status)
    then refused table_not_active t
    else if not (same_seat seat t.turn_seat)
    then refused out_of_turn t
    else if breaks_chain t.last_move seat msg.from
    then refused invalid_continuation t
    else let taken = take_rate_token (seat_of t.seats seat).rate now in
      if not taken.0
      then refused rate_limited (with_rate t seat taken.1)
      else relayed
          (record (with_rate t seat taken.1) {
            turn_seat = if msg.continues then seat else other_seat seat;
            last_move = some (seat, msg.to);
          })
          (record { seat = seat; from = msg.from; to = msg.to; continues = msg.continues })

-- Everything that can happen to a table, as one call of an operation each.
pub data Event : Type 0 where
  redeems : Decoded → Event
  moves : Seat → ClientMoveMessage → Event
  disconnects : Seat → Event
  closes : TableClosedReason → Event

abbrev pub after_join : TableState → JoinResult → TableState
after_join t (ok t') = t'
after_join t (err reason) = t

abbrev pub after_move : ApplyMoveResult → TableState × Option ServerMoveMessage
after_move (relayed t m) = (t, some m)
after_move (refused reason t) = (t, none)

-- The table after an event, and what is relayed to the peer.
unfoldable pub step : TableState → ℕ × Event → TableState × Option ServerMoveMessage
step t (now, redeems decoded) = (after_join t (redeem_join t decoded now), none)
step t (now, moves seat msg) = after_move (apply_incoming_move t seat msg now)
step t (now, disconnects seat) = (on_seat_disconnected t seat, none)
step t (now, closes reason) = (close_table t reason, none)

abbrev pub add_relay : Option ServerMoveMessage → List ServerMoveMessage → List ServerMoveMessage
add_relay none ms = ms
add_relay (some m) ms = m ∷ ms

unfoldable pub run : TableState → List (ℕ × Event) → TableState × List ServerMoveMessage
run t [] = (t, [])
run t (e ∷ es) =
    let (next, relay) = step t e in
    let (last, relays) = run next es in (last, add_relay relay relays)
