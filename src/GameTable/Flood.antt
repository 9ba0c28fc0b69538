-- ===== src/GameTable/Flood.antt =====
-- T6 of table.ts: how many moves one seat can have relayed.
use olive_branch.Prelude.{
  ℕ, suc, ◌+◌, ◌-◌, ◌*◌, ◌/◌, ◌≤◌, ◌≡◌, true, Option, none, some, List, [], ◌∷◌, arith, map,
  if◌then◌else◌,
}
use olive_branch.GameTable.Rate.{
  take_rate_token, new_rate_bucket, parts, rate_capacity, Rising, last_time,
}
use olive_branch.GameTable.Table.{
  Seat, TableState, seat_of, ok, Decoded, redeem_join, on_seat_disconnected, close_table,
  apply_incoming_move, Event, redeems, moves, disconnects, closes, step, run, same_seat,
  ServerMoveMessage, add_relay,
}
use olive_branch.GameTable.Seats.{consumed_stays, redeem_consumes}
use olive_branch.GameTable.Turns.{run-relays}

-- How many of the relayed moves are of this seat.
abbrev pub count_of : Seat → List ServerMoveMessage → ℕ
count_of s [] = 0
count_of s (m ∷ ms) = if same_seat m.seat s then suc (count_of s ms) else count_of s ms

abbrev relay_cost : Seat → Option ServerMoveMessage → ℕ
relay_cost s none = 0
relay_cost s (some m) = if same_seat m.seat s then 1 else 0

count_of-add_relay :
    (s : Seat) (r : Option ServerMoveMessage) (ms : List ServerMoveMessage)
    → count_of s (add_relay r ms) ≡ relay_cost s r + count_of s ms
count_of-add_relay s none ms = omega arith
count_of-add_relay s (some m) ms = ground arith

-- One event spends at most what time has given back.
step_spends :
    (t : TableState) (now : ℕ) (e : Event) (s : Seat)
    → (seat_of t.seats s).token_consumed ≡ true
    → (seat_of t.seats s).rate.last_ms ≤ now
    → let before = (seat_of t.seats s).rate in
      let after = (seat_of (step t (now, e)).0.seats s).rate in
      (after.last_ms ≤ now)
      × (parts * relay_cost s (step t (now, e)).1 + after.tokens + before.last_ms
          ≤ before.tokens + after.last_ms)
unfolding step redeem_join apply_incoming_move on_seat_disconnected close_table take_rate_token
step_spends t now (redeems d) s c h = ground arith
step_spends t now (moves s' m) s c h = ground arith
step_spends t now (disconnects s') s c h = ground arith
step_spends t now (closes r) s c h = ground arith

run_spends :
    (t : TableState) (es : List (ℕ × Event)) (s : Seat) (from : ℕ)
    → (seat_of t.seats s).token_consumed ≡ true
    → (seat_of t.seats s).rate.last_ms ≤ from
    → Rising from (map (λ e. e.0) es)
    → parts * count_of s (run t es).1 + (seat_of t.seats s).rate.last_ms
      ≤ (seat_of t.seats s).rate.tokens + last_time from (map (λ e. e.0) es)
run_spends t [] s from c h rising = unfold run in omega arith
run_spends t ((now, e) ∷ es) s from c h (le, rising) =
    let (within, spent) = step_spends t now e s c (omega arith) in
    rw
      (
        run-relays t (now, e) es,
        count_of-add_relay s (step t (now, e)).1 (run (step t (now, e)).0 es).1,
      )
      (omega (
        arith,
        within,
        spent,
        run_spends (step t (now, e)).0 es s now (consumed_stays t (now, e) s c) within rising,
      ))

-- However a seat floods its table, and whatever else happens there, as long as the times do not
-- go back, at most eight of its moves are relayed and one more for each quarter of a second that
-- has passed since it joined.
pub flood_bounded :
    (t u : TableState) (d : Decoded) (now : ℕ) (es : List (ℕ × Event))
    → redeem_join t d now ≡ ok u
    → Rising now (map (λ e. e.0) es)
    → count_of d.seat (run u es).1 ≤ 8 + (last_time now (map (λ e. e.0) es) - now) / parts
flood_bounded t u d now es h rising =
    let (at_now, full) = fresh t u d now h in
    omega (
      arith,
      at_now,
      full,
      run_spends u es d.seat now (redeem_consumes t u d now h) (omega (arith, at_now)) rising,
    )
  where
    fresh :
        (t u : TableState) (d : Decoded) (now : ℕ)
        → redeem_join t d now ≡ ok u
        → ((seat_of u.seats d.seat).rate.last_ms ≡ now)
          × ((seat_of u.seats d.seat).rate.tokens ≡ rate_capacity)
    fresh t u d now h = unfold redeem_join new_rate_bucket in ground arith
