-- ===== src/GameTable/Tests.antt =====
-- The theorems on table.ts at concrete tables.
use olive_branch.Prelude.{
  ℕ, ◌+◌, ◌-◌, ◌/◌, ◌≤◌, ◌≡◌, refl, ◌≢◌, ◌↔◌, Bool, true, false, none, some, List, [], ◌∷◌, map,
  arith, leaks,
}
use olive_branch.Family.Authorize.{guardian}
use olive_branch.GameTable.Principals.{
  TablePrincipal, adult, child, SiblingLink, allow, can_open_table,
}
use olive_branch.GameTable.Opening.{MayMeet, can_open_table_iff}
use olive_branch.GameTable.Rate.{parts, Rising, last_time}
use olive_branch.GameTable.Messages.{Json, str, bool, obj, Fields, end, field, parse_client_message}
use olive_branch.GameTable.Parsing.{Says, cell_json, parse_client_message_iff}
use olive_branch.GameTable.Table.{
  checkers, seat_0, seat_1, ClientMoveMessage, TableState, SeatState, TableStatus, pending, active,
  Decoded, ok, Event, redeems, moves, disconnects, create_table, redeem_join, breaks_chain, seat_of,
  run,
}
use olive_branch.GameTable.Seats.{WellFormed, run-WellFormed, redeem_once}
use olive_branch.GameTable.Turns.{IsPlay, run-IsPlay}
use olive_branch.GameTable.Flood.{count_of, flood_bounded}

abbrev players : TablePrincipal × TablePrincipal
players = (adult "dad-user-id" guardian, child "mia-child-id")

abbrev seat_for : TablePrincipal → Bool → ℕ → SeatState
seat_for p is_here now = record {
  principal = p;
  token_consumed = is_here;
  connected = is_here;
  rate = record { tokens = 2000; last_ms = now };
}

abbrev table : SeatState × SeatState → TableStatus → TableState
table seats status = record {
  id = "t_1";
  game = checkers;
  seats = seats;
  created_at = 1000;
  join_deadline = 181000;
  status = status;
  closed_reason = none;
  turn_seat = seat_0;
  last_move = none;
}

abbrev empty : TableState
empty = table (seat_for players.0 false 1000, seat_for players.1 false 1000) pending

abbrev half : TableState
half = table (seat_for players.0 true 2000, seat_for players.1 false 1000) pending

abbrev full : TableState
full = table (seat_for players.0 true 2000, seat_for players.1 true 3000) active

abbrev dads : Decoded
dads = record { table_id = "t_1"; seat = seat_0; principal = players.0 }

abbrev mias : Decoded
mias = record { table_id = "t_1"; seat = seat_1; principal = players.1 }

abbrev opening : ClientMoveMessage
opening = record { from = (2, 1); to = (3, 2); continues = false }

abbrev evening : List (ℕ × Event)
evening =
    (2000, redeems dads)
    ∷ (3000, redeems mias)
    ∷ (4000, moves seat_0 opening)
    ∷ (5000, disconnects seat_1)
    ∷ []

created : create_table checkers players 1000 "t_1" none ≡ some empty
unfolding create_table leaks olive_branch.GameTable.Rate.new_rate_bucket
created = refl

run-WellFormed_example : WellFormed (run empty evening).0
run-WellFormed_example = run-WellFormed checkers players 1000 "t_1" none empty evening created

run-IsPlay_example : IsPlay (run empty evening).1
run-IsPlay_example = run-IsPlay checkers players 1000 "t_1" none empty evening created

dad_joins : redeem_join empty dads 2000 ≡ ok half
unfolding redeem_join olive_branch.GameTable.Principals.principals_equal
    olive_branch.GameTable.Rate.new_rate_bucket
dad_joins = refl

same_seat_again : dads.seat ≡ dads.seat
same_seat_again = refl

redeem_once_example : redeem_join (run half evening).0 dads 9000 ≢ ok full
redeem_once_example =
    redeem_once empty half full dads dads 2000 9000 evening dad_joins same_seat_again

abbrev flood : List (ℕ × Event)
flood = (2100, moves seat_0 opening) ∷ (2101, moves seat_0 opening) ∷ []

rising : Rising 2000 (map (λ e. e.0) flood)
rising = (omega arith, (omega arith, tt))

flood_bounded_example :
    count_of seat_0 (run half flood).1 ≤ 8 + (last_time 2000 (map (λ e. e.0) flood) - 2000) / parts
flood_bounded_example = flood_bounded empty half dads 2000 flood dad_joins rising

live : full.status ≡ active
live = refl

turn : full.turn_seat ≡ seat_0
turn = refl

free : breaks_chain full.last_move seat_0 opening.from ≡ false
free = refl

rested : (seat_of full.seats seat_0).rate.last_ms + parts ≤ 4000
rested = omega arith

abbrev cousins : SiblingLink
cousins = record { child_a = "ann"; child_b = "mia"; contact_allowed = true }

can_open_table_iff_example :
    (can_open_table (child "mia") (child "ann") 7 none (some cousins) ≡ allow)
    ↔ MayMeet 7 none (some cousins) (child "mia") (child "ann")
can_open_table_iff_example = can_open_table_iff (child "mia") (child "ann") 7 none (some cousins)

abbrev wire : Json
wire = obj (
    field "type" (str "move") (
      field "from" (cell_json (2, 1))
        (field "to" (cell_json (3, 2)) (field "continues" (bool false) end))))

parse_client_message_iff_example :
    (parse_client_message wire ≡ some opening) ↔ ((fs : Fields) × (wire ≡ obj fs) × Says fs opening)
parse_client_message_iff_example = parse_client_message_iff wire opening
