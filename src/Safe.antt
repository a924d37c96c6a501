-- ===== src/Safe.antt =====
-- contracts/juice-safe-v7.clar: a passkey wallet with an admin key, spending limits, a delay on
-- what passes them, a veto, recovery, and staking.
pub mod State
pub mod Hashes
pub mod External
pub mod Signature
pub mod Spending
pub mod Operations
pub mod Transfers
pub mod Execution
pub mod Config
pub mod Ownership
pub mod Staking
pub mod Entry
pub mod Frame
pub mod Reentry
pub mod Used
pub mod Queue
pub mod Handover
pub mod Delay
pub mod Limits
