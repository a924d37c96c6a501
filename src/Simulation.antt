-- ===== src/Simulation.antt =====
-- The stxer simulations of game-wager-v2 (simul-game-wager-v2*.js): the builder calls that each
-- script makes, the signatures it prepares, and how it judges the results.
pub mod Builder
pub mod Common
pub mod Report
pub mod HappyPath
pub mod Cancel
pub mod Admin
pub mod Negative
pub mod Agreement
pub mod Accepted
pub mod Juice
