-- ===== src/Webauthn.antt =====
-- Passkey assertions, on both sides of the chain: the signer that the simulations use and the
-- contract that checks its output.
pub mod Crypto
pub mod Verifier
pub mod Challenge
pub mod Signer
pub mod Anchored
pub mod Assertion
