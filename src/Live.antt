-- ===== src/Live.antt =====
-- The call and the games played during it, packages/live/src: live.ts, lifecycle.ts and modes.ts.
pub mod Games
pub mod Decks
pub mod Shuffling
pub mod Rounds
pub mod Pictionary
pub mod Guessing
pub mod Postures
pub mod Trouble
mod Tests
