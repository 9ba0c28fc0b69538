-- ===== src/Lib.antt =====
-- Olive-Branch: the decisions of its TypeScript packages, scaffold/packages/*/src, as functions, and
-- what they promise.
--
-- The program connects a child with adults who live elsewhere. `family-graph` decides who may do what
-- to whom; every other package asks it first, and a database session carries the caller's identity to
-- the row security. `session-runtime` mints the tokens of calls and `game-sync` those of game tables,
-- both after the same decision. The child's device is held by `child-lock`; `signal`, `offline` and
-- `games` run on it; `ledger` keeps a record for courts.
--
-- Prelude: shared names, Boolean tests, lists measured by native numbers, texts, the first element of a
--   stable sort, membership.
-- Family: family-graph/src/authorize.ts. Authorize has `can`, split into `refusal` (one edge),
--   `evaluate` (the loop that keeps the worst refusal) and the prohibitions; Stamps reads the dates.
-- Session: family-graph/src/session.ts. A call is the list of its effects on the connection and an
--   outcome; `transaction` is the try block, `settle` the catch and finally blocks.
-- Time: time-engine/src/time.ts. Luxon is the record of what the calendar library is asked for; Zones has
--   resolveZone and resolveWallClock, Dates enumerateLocalDates. A date at midnight of UTC is the number
--   of its day. Resolving and Listing have the proofs, Sample a calendar for the examples.
-- Custody: custody/src/schedule.ts, over Time. Schedule has the pattern and the holidays, Blocks the
--   blocks, the exchanges and the sleeps, Presence the parent who is free now. Rules, Rotation, Runs and
--   Waiting have the proofs; Runs reads the calendar day by day as the description of the blocks.
-- Delivery: delivery-engine/src, over Time. Materialize is materialize.ts, Gate is gate.ts; Schedule (the
--   window that is found), Timely and Deferral have the proofs.
-- ChildLock: child-lock/src/lock.ts. One function per operation, and `step` and `run` over timed events.
-- GameTable: game-sync/src/table.ts. Principals (who may open a table), Tokens (signed join tokens),
--   Rate (the token bucket, counted in 250ths of a token, so exact), Messages (the wire), Table (the
--   state and its operations). Proofs are in Opening, Signing, Flood, Parsing, Seats and Turns.
-- Rooms: session-runtime/src/rooms.ts. Session has createSession, deriveGrant and mintToken.
-- Ledger: ledger/src/ledger.ts. Framing (the length-prefixed text that is hashed), Chain (append and
--   verifyChain), Export. A chain without faults is an empty list of faults. Shares has allocate and owedTo,
--   with proofs in Division, Rounding and Netting; a balance is what was fronted and what is owed.
-- Signal: signal/src/signal.ts. Catalogue, Priority, Delivery, with proofs in Fairness and Ceiling.
-- Offline: offline/src/offline.ts. Outbox and Conflicts, with proofs in Keeping.
-- Audit: the walks of auditSenderView in signal/src/signal.ts and auditChildView in games/src/games.ts,
--   over a value that is a leaf, an array or an object; Views has their lists of words, and Words the audits
--   of live/src/live.ts and guardian/src/pending.ts.
-- Games: games/src/games.ts. Runtime is the part that all games share, over a game's board, the type of its
--   moves and its set-up, the board that newGame makes for a seed and the seed that takeBack reads off a
--   board; Boards has the rules of three of the games, Photos those of the fourth; Views what a child is
--   shown. Takeback and Restart have the proofs on takeBack, Counting those on the scores.
--
-- Live: live/src. Games has the registry and the cards, Decks the shuffle and the session, Pictionary the
--   drawing game, over any toLowerCase, with proofs in Shuffling, Rounds and Guessing;
--   Postures is lifecycle.ts, Trouble modes.ts.
-- Guardian: guardian/src/pending.ts. Group has the group call and the turns, with proofs in Turns.
-- Budget: budget/src/budget.ts. Resolve has the costs and the resolution, Shedding the proofs.
-- Messaging: messaging/src/pipeline.ts, over Family and Delivery. Capture has captureMessage and
--   retentionOnOpen, Retention the proofs.
-- Storage: storage/src/retention.ts. Digest has the digest, Listing the proofs.
--
-- A thrown error is `none` or a result of its own. Instants that the source compares as numbers are
-- natural numbers of milliseconds; instants that it compares as texts are texts, ordered by their
-- code points, which for ASCII is the order of JavaScript. The order of `localeCompare` is a parameter
-- with the laws of a strict weak order. Numbers that the source takes as they come (ages, counts,
-- indices) are natural numbers. Loops are recursion on the list they run over, or on the number of their
-- rounds, which the source's bounds give; the loop of the budget that sheds features
-- gets one round for each feature, and each round sheds one. Only `decimal` of the
-- ledger's framing runs on fuel, and the number itself is enough, since each round divides by ten.
--
-- Not modelled: randomness (ids and room names are arguments, and the places that a shuffle draws),
-- SHA-256, HMAC and base64url (parameters), the database and HTTP, texts for display, and the packages
-- that mostly hold texts and layouts.
pub mod Prelude
pub mod Audit
pub mod Family
pub mod Session
pub mod Time
pub mod Custody
pub mod Delivery
pub mod ChildLock
pub mod GameTable
pub mod Rooms
pub mod Ledger
pub mod Signal
pub mod Offline
pub mod Games
pub mod Live
pub mod Guardian
pub mod Budget
pub mod Messaging
pub mod Storage
