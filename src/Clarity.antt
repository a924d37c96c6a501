-- ===== src/Clarity.antt =====
-- The parts of the Clarity language that the contracts use: responses with run-time aborts,
-- 128-bit unsigned arithmetic, and values.
pub mod Contract
pub mod Outcome
pub mod Value
