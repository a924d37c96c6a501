-- ===== src/Tests.antt =====
-- Concrete instances of what the model takes as parameters, and the theorems at concrete inputs.
pub mod Toy
pub mod Ledger
pub mod Signing
pub mod Wager
pub mod Submit
pub mod World
pub mod Passkey
pub mod Safe
