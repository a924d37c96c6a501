-- ===== src/Der.antt =====
-- DER signatures: `derToRawSignature` of test-der-parse.mjs, the parser of the front end, and
-- the encoder in verify-sig.mjs that hands a raw signature to Node.
pub mod Parse
pub mod Encode
pub mod RoundTrip
pub mod Accepts
pub mod TryOp
