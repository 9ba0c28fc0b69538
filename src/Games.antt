-- ===== src/Games.antt =====
-- games/src/games.ts: the game runtime, generic in the board and the payload of a move, and the four
-- games. The source's `any` payload is taken to be of the game's own type.
pub mod Catalogue
pub mod Runtime
pub mod Boards
pub mod Photos
pub mod Takeback
pub mod Restart
pub mod Counting
pub mod Views
mod Tests
