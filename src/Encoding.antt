-- ===== src/Encoding.antt =====
-- Texts and buffers as Node has them.
pub mod Hex
pub mod Base64
