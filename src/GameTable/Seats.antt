-- ===== src/GameTable/Seats.antt =====
-- The seats of a table of table.ts over its whole life: what holds between two events, and that a
-- join token is good once (T2).
use olive_branch.Prelude.{
  ℕ, String, ◌≡◌, refl, ◌≢◌, ◌⊎◌, true, false, Option, none, some, List, [], ◌∷◌, arith, subst, sym,
  ◌∙◌,
}
use olive_branch.GameTable.Principals.{TablePrincipal}
use olive_branch.GameTable.Table.{
  TableGame, Seat, TableState, pending, active, closed, seat_of, create_table, ok, Decoded,
  redeem_join, on_seat_disconnected, close_table, apply_incoming_move, Event, redeems, moves,
  disconnects, closes, after_join, after_move, step, run, ClientMoveMessage,
}

pub record WellFormed (t : TableState) : Type 0 where
  pub consumed_0 : t.seats.0.connected ≡ true → t.seats.0.token_consumed ≡ true
  pub consumed_1 : t.seats.1.connected ≡ true → t.seats.1.token_consumed ≡ true
  pub active_both : t.status ≡ active → (t.seats.0.connected ≡ true) × (t.seats.1.connected ≡ true)
  pub pending_apart :
      t.status ≡ pending → ((t.seats.0.connected ≡ false) ⊎ (t.seats.1.connected ≡ false))
  -- Before the table is closed, a seat whose token was consumed is connected.
  pub spoken_for_0 :
      t.status ≢ closed → t.seats.0.token_consumed ≡ true → t.seats.0.connected ≡ true
  pub spoken_for_1 :
      t.status ≢ closed → t.seats.1.token_consumed ≡ true → t.seats.1.connected ≡ true

create_table-WellFormed :
    (g : TableGame) (ps : TablePrincipal × TablePrincipal) (now : ℕ) (id : String) (ttl : Option ℕ)
    (t : TableState)
    → create_table g ps now id ttl ≡ some t
    → WellFormed t
unfolding create_table
create_table-WellFormed g ps now id ttl t h = ground arith

redeem-WellFormed :
    (t : TableState) (d : Decoded) (now : ℕ)
    → WellFormed t
    → WellFormed (after_join t (redeem_join t d now))
unfolding redeem_join
redeem-WellFormed t d now w = ground arith

move-WellFormed :
    (t : TableState) (s : Seat) (m : ClientMoveMessage) (now : ℕ)
    → WellFormed t
    → WellFormed (after_move (apply_incoming_move t s m now)).0
unfolding apply_incoming_move
move-WellFormed t s m now w = ground arith

disconnect-WellFormed :
    (t : TableState) (s : Seat) → WellFormed t → WellFormed (on_seat_disconnected t s)
unfolding on_seat_disconnected
disconnect-WellFormed t s w = ground arith

step-WellFormed : (t : TableState) (e : ℕ × Event) → WellFormed t → WellFormed (step t e).0
unfolding step close_table
step-WellFormed t (now, redeems d) w = redeem-WellFormed t d now w
step-WellFormed t (now, moves s m) w = move-WellFormed t s m now w
step-WellFormed t (now, disconnects s) w = disconnect-WellFormed t s w
step-WellFormed t (now, closes r) w = ground arith

run_from-WellFormed :
    (t : TableState) (es : List (ℕ × Event)) → WellFormed t → WellFormed (run t es).0
unfolding run
run_from-WellFormed t [] w = w
run_from-WellFormed t (e ∷ es) w = run_from-WellFormed (step t e).0 es (step-WellFormed t e w)

-- A table that `createTable` made stays well formed over any events at any times: a connected seat
-- has its token consumed, an active table has both seats connected and a pending one has not, and
-- until it is closed a seat whose token is consumed is connected.
pub run-WellFormed :
    (g : TableGame) (ps : TablePrincipal × TablePrincipal) (now : ℕ) (id : String) (ttl : Option ℕ)
    (t : TableState) (es : List (ℕ × Event))
    → create_table g ps now id ttl ≡ some t
    → WellFormed (run t es).0
run-WellFormed g ps now id ttl t es h =
    run_from-WellFormed t es (create_table-WellFormed g ps now id ttl t h)

-- Whose table it is, and who may sit on which seat.
abbrev pub SameIdentity : TableState → TableState → Type 0
SameIdentity t u =
    (u.id ≡ t.id)
    × (u.seats.0.principal ≡ t.seats.0.principal)
    × (u.seats.1.principal ≡ t.seats.1.principal)

step-SameIdentity : (t : TableState) (e : ℕ × Event) → SameIdentity t (step t e).0
unfolding step redeem_join apply_incoming_move on_seat_disconnected close_table
step-SameIdentity t (now, redeems d) = ground arith
step-SameIdentity t (now, moves s m) = ground arith
step-SameIdentity t (now, disconnects s) = ground arith
step-SameIdentity t (now, closes r) = ground arith

pub consumed_stays :
    (t : TableState) (e : ℕ × Event) (s : Seat)
    → (seat_of t.seats s).token_consumed ≡ true
    → (seat_of (step t e).0.seats s).token_consumed ≡ true
unfolding step redeem_join apply_incoming_move on_seat_disconnected close_table
consumed_stays t (now, redeems d) s h = ground arith
consumed_stays t (now, moves s' m) s h = ground arith
consumed_stays t (now, disconnects s') s h = ground arith
consumed_stays t (now, closes r) s h = ground arith

consumed_stays_on :
    (t : TableState) (es : List (ℕ × Event)) (s : Seat)
    → (seat_of t.seats s).token_consumed ≡ true
    → (seat_of (run t es).0.seats s).token_consumed ≡ true
unfolding run
consumed_stays_on t [] s h = h
consumed_stays_on t (e ∷ es) s h = consumed_stays_on (step t e).0 es s (consumed_stays t e s h)

pub redeem_consumes :
    (t u : TableState) (d : Decoded) (now : ℕ)
    → redeem_join t d now ≡ ok u
    → (seat_of u.seats d.seat).token_consumed ≡ true
unfolding redeem_join
redeem_consumes t u d now h = ground arith

consumed_refuses :
    (t u : TableState) (d : Decoded) (now : ℕ)
    → (seat_of t.seats d.seat).token_consumed ≡ true
    → redeem_join t d now ≢ ok u
unfolding redeem_join
consumed_refuses t u d now h r = ground arith

-- T2: once a token was redeemed for a seat, no token for that seat is ever redeemed again,
-- whatever happens to the table in between and whoever holds it.
pub redeem_once :
    (t u v : TableState) (d d' : Decoded) (now later : ℕ) (es : List (ℕ × Event))
    → redeem_join t d now ≡ ok u
    → d'.seat ≡ d.seat
    → redeem_join (run u es).0 d' later ≢ ok v
redeem_once t u v d d' now later es h same = consumed_refuses (run u es).0 v d' later (
    subst (λ s. (seat_of (run u es).0.seats s).token_consumed ≡ true) (sym same)
      (consumed_stays_on u es d.seat (redeem_consumes t u d now h)))

closed_step :
    (t : TableState) (e : ℕ × Event)
    → t.status ≡ closed
    → ((step t e).0.status ≡ closed) × ((step t e).1 ≡ none)
unfolding step redeem_join apply_incoming_move on_seat_disconnected close_table
closed_step t (now, redeems d) h = ground arith
closed_step t (now, moves s m) h = ground arith
closed_step t (now, disconnects s) h = ground arith
closed_step t (now, closes r) h = ground arith

closed_run :
    (t : TableState) (es : List (ℕ × Event))
    → t.status ≡ closed
    → ((run t es).0.status ≡ closed) × ((run t es).1 ≡ [])
unfolding run
closed_run t [] h = (h, refl)
closed_run t (e ∷ es) h =
    let (still, silent) = closed_step t e h in
    let (end, none_relayed) = closed_run (step t e).0 es still in (end, rw (silent, none_relayed))

-- T7: when a seat drops, the table is closed, and from then on nothing is relayed and nothing
-- opens it again, whatever is sent to it.
pub disconnect_ends :
    (t : TableState) (s : Seat) (es : List (ℕ × Event))
    → ((run (on_seat_disconnected t s) es).0.status ≡ closed)
      × ((run (on_seat_disconnected t s) es).1 ≡ [])
disconnect_ends t s es = closed_run (on_seat_disconnected t s) es (dropped t s)
  where
    dropped : (t : TableState) (s : Seat) → (on_seat_disconnected t s).status ≡ closed
    dropped t s = unfold on_seat_disconnected in refl

-- T3: over any events, the table keeps its id and both seats keep the principals that it was
-- created for.
pub run-SameIdentity : (t : TableState) (es : List (ℕ × Event)) → SameIdentity t (run t es).0
unfolding run
run-SameIdentity t [] = (refl, refl, refl)
run-SameIdentity t (e ∷ es) =
    let (i, p, q) = step-SameIdentity t e in
    let (j, r, s) = run-SameIdentity (step t e).0 es in (j ∙ i, r ∙ p, s ∙ q)
