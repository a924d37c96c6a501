-- ===== src/Wager/Step.antt =====
-- What a call that ends in `ok` does to the state of game-wager-v2.clar.
pub mod Relation
pub mod Games
pub mod Rates
pub mod Used
