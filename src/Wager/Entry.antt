-- ===== src/Wager/Entry.antt =====
-- What each entry point of game-wager-v2.clar has checked and changed when it ends in `ok`.
pub mod Create
pub mod Close
pub mod Tokens
