-- ===== src/Simulation/Juice.antt =====
-- The lifecycle scripts of the Juice safe, simul-juice-safe-v{1,2,4,6,7}-lifecycle.js.
pub mod Plan
pub mod Challenge
pub mod Stake
pub mod Advance
pub mod Rewards
pub mod Unstake
pub mod WithdrawStx
pub mod WithdrawSbtc
pub mod Main
pub mod Agreement
pub mod V1
pub mod V2
pub mod V4
pub mod V6
