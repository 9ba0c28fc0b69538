-- ===== src/GameTable/Turns.antt =====
-- T6 of table.ts: the moves that a table relays, in order.
use olive_branch.Prelude.{
  ℕ, ◌+◌, ◌≤◌, ◌≡◌, refl, inl, inr, false, Option, none, some, List, [], ◌∷◌, arith, ◌∙◌, String,
  if◌then◌else◌, Option-cases,
}
use olive_branch.GameTable.Principals.{TablePrincipal}
use olive_branch.GameTable.Rate.{take_rate_token, parts}
use olive_branch.GameTable.Table.{
  TableGame, Seat, seat_0, TableState, active, seat_of, create_table, redeem_join,
  on_seat_disconnected, close_table, other_seat, apply_incoming_move, Event, redeems, moves,
  disconnects, closes, step, run, ClientMoveMessage, ServerMoveMessage, add_relay, breaks_chain,
}

-- The move `next` may follow `prev`: after a continuation the same seat goes on from the cell that
-- it reached, and otherwise it is the other seat's turn.
abbrev pub Follows : ServerMoveMessage → ServerMoveMessage → Type 0
Follows prev next =
    if prev.continues
    then (next.seat ≡ prev.seat) × (next.from ≡ prev.to)
    else next.seat ≡ other_seat prev.seat

abbrev pub IsChain : ServerMoveMessage → List ServerMoveMessage → Type 0
IsChain prev [] = Unit
IsChain prev (m ∷ ms) = Follows prev m × IsChain m ms

-- Seat 0 begins, and each move follows the one before.
abbrev pub IsPlay : List ServerMoveMessage → Type 0
IsPlay [] = Unit
IsPlay (m ∷ ms) = (m.seat ≡ seat_0) × IsChain m ms

-- What the table remembers of the last relayed move.
abbrev Remembers : TableState → ServerMoveMessage → Type 0
Remembers t m =
    (t.last_move ≡ some (m.seat, m.to))
    × (t.turn_seat ≡ (if m.continues then m.seat else other_seat m.seat))

abbrev Untouched : TableState → TableState → Type 0
Untouched t u = (u.last_move ≡ t.last_move) × (u.turn_seat ≡ t.turn_seat)

relayed_next :
    (t : TableState) (e : ℕ × Event) (prev m : ServerMoveMessage)
    → Remembers t prev
    → (step t e).1 ≡ some m
    → Follows prev m × Remembers (step t e).0 m
unfolding step apply_incoming_move
relayed_next t (now, moves s msg) prev m r h = ground arith
relayed_next t (now, redeems d) prev m r h = cc
relayed_next t (now, disconnects s) prev m r h = cc
relayed_next t (now, closes x) prev m r h = cc

silent_next : (t : TableState) (e : ℕ × Event) → (step t e).1 ≡ none → Untouched t (step t e).0
unfolding step redeem_join apply_incoming_move on_seat_disconnected close_table
silent_next t (now, redeems d) h = ground arith
silent_next t (now, moves s m) h = ground arith
silent_next t (now, disconnects s) h = ground arith
silent_next t (now, closes r) h = ground arith

relayed_first :
    (t : TableState) (e : ℕ × Event) (m : ServerMoveMessage)
    → t.last_move ≡ none
    → t.turn_seat ≡ seat_0
    → (step t e).1 ≡ some m
    → (m.seat ≡ seat_0) × Remembers (step t e).0 m
unfolding step apply_incoming_move
relayed_first t (now, moves s msg) m l z h = ground arith
relayed_first t (now, redeems d) m l z h = cc
relayed_first t (now, disconnects s) m l z h = cc
relayed_first t (now, closes x) m l z h = cc

pub run-relays :
    (t : TableState) (e : ℕ × Event) (es : List (ℕ × Event))
    → (run t (e ∷ es)).1 ≡ add_relay (step t e).1 (run (step t e).0 es).1
unfolding run
run-relays t e es = refl

run-IsChain :
    (t : TableState) (es : List (ℕ × Event)) (prev : ServerMoveMessage)
    → Remembers t prev
    → IsChain prev (run t es).1
run-IsChain t [] prev r = unfold run in tt
run-IsChain t (e ∷ es) prev r = elim (Option-cases (step t e).1) [
  | inl quiet ↦
      let (l, s) = silent_next t e quiet in
      rw (run-relays t e es, quiet) (run-IsChain (step t e).0 es prev (l ∙ r.0, s ∙ r.1))
  | inr (m, said) ↦
      let (follows, r') = relayed_next t e prev m r said in
      rw (run-relays t e es, said) (follows, run-IsChain (step t e).0 es m r')
]

run_from-IsPlay :
    (t : TableState) (es : List (ℕ × Event))
    → t.last_move ≡ none
    → t.turn_seat ≡ seat_0
    → IsPlay (run t es).1
run_from-IsPlay t [] l z = unfold run in tt
run_from-IsPlay t (e ∷ es) l z = elim (Option-cases (step t e).1) [
  | inl quiet ↦
      let (k, s) = silent_next t e quiet in
      rw (run-relays t e es, quiet) (run_from-IsPlay (step t e).0 es (k ∙ l) (s ∙ z))
  | inr (m, said) ↦
      let (first, r) = relayed_first t e m l z said in
      rw (run-relays t e es, said) (first, run-IsChain (step t e).0 es m r)
]

-- T6: over any events at any times, the moves that a created table relays are a play: seat 0
-- begins; after a move that claims to continue, the next relayed move is the same seat's and starts
-- from the cell that it reached; after any other, the next is the other seat's.
pub run-IsPlay :
    (g : TableGame) (ps : TablePrincipal × TablePrincipal) (now : ℕ) (id : String) (ttl : Option ℕ)
    (t : TableState) (es : List (ℕ × Event))
    → create_table g ps now id ttl ≡ some t
    → IsPlay (run t es).1
run-IsPlay g ps now id ttl t es h =
    let (l, z) = fresh g ps now id ttl t h in run_from-IsPlay t es l z
  where
    fresh :
        (g : TableGame) (ps : TablePrincipal × TablePrincipal) (now : ℕ) (id : String)
        (ttl : Option ℕ) (t : TableState)
        → create_table g ps now id ttl ≡ some t
        → (t.last_move ≡ none) × (t.turn_seat ≡ seat_0)
    fresh g ps now id ttl t h = unfold create_table in ground arith

-- A move of the seat whose turn it is, on an active table, that does not break a chain, is relayed
-- whenever a quarter of a second has passed since that seat's bucket was last asked.
pub timely_move_relayed :
    (t : TableState) (s : Seat) (msg : ClientMoveMessage) (now : ℕ)
    → t.status ≡ active
    → t.turn_seat ≡ s
    → breaks_chain t.last_move s msg.from ≡ false
    → (seat_of t.seats s).rate.last_ms + parts ≤ now
    → (step t (now, moves s msg)).1
      ≡ some (record { seat = s; from = msg.from; to = msg.to; continues = msg.continues })
unfolding step apply_incoming_move take_rate_token
timely_move_relayed t s msg now live turn chain gap = ground arith
