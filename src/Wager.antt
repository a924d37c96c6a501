-- ===== src/Wager.antt =====
-- contracts/game-wager-v2.clar: the wager escrow with passkey signatures.
pub mod State
pub mod Hashes
pub mod Signature
pub mod External
pub mod Escrow
pub mod Effects
pub mod Entry
pub mod Owed
pub mod Accounting
pub mod Admin
pub mod Solvency
pub mod Step
pub mod Invariant
pub mod History
