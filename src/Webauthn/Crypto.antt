-- ===== src/Webauthn/Crypto.antt =====
-- What the sources call and do not implement: SHA-256, P-256 (Node's crypto, @noble/curves and
-- the Clarity built-ins) and the serialisation of Clarity values (@stacks/transactions on the
-- JavaScript side, `to-consensus-buff?` on the other). The laws are those the code relies on.
use pillar_wallets_xyz.Base.{[], ◌∷◌, arith, refl, ◌<◌, ◌≡◌, Bool, true, Bytes, length, All, codes}
use pillar_wallets_xyz.Clarity.Value.{Value}
use pillar_wallets_xyz.Encoding.Hex.{from_hex}

pub record Crypto : Type 0 where
  pub sha256 : Bytes → Bytes
  -- `p256.sign(digest, key, { prehash: false, format: "compact", lowS: true })`
  pub sign : Bytes → Bytes → Bytes
  -- `secp256r1-verify digest signature public-key`
  pub verify : Bytes → Bytes → Bytes → Bool
  -- `p256.getPublicKey(key, true)`
  pub public_key : Bytes → Bytes
  -- `p256.getPublicKey(key, false)`
  pub public_key_uncompressed : Bytes → Bytes
  -- `serializeCV`, which returns hexadecimal text
  pub serialize_cv : Value → Bytes
  pub to_consensus_buff : Value → Bytes

-- SHA-256 of "fak.fun", as the signer and the contract both spell it out.
abbrev pub fak_fun_hash : Bytes
fak_fun_hash =
    0xb8 ∷ 0x77 ∷ 0xfe ∷ 0xa5 ∷ 0xdf ∷ 0x49 ∷ 0xf6 ∷ 0xd2 ∷ 0xfe ∷ 0x54 ∷ 0x4d ∷ 0xb0 ∷ 0xc7 ∷ 0xce
    ∷ 0xd7 ∷ 0x54 ∷ 0xf1 ∷ 0x17 ∷ 0xad ∷ 0xe8 ∷ 0x5f ∷ 0x60 ∷ 0x26 ∷ 0x6b ∷ 0xc2 ∷ 0x17 ∷ 0xdb
    ∷ 0x3b ∷ 0x23 ∷ 0x9f ∷ 0x22 ∷ 0x49 ∷ []

pub fak_fun_hash-bytes : (length fak_fun_hash ≡ 32) × All (λ x. x < 256) fak_fun_hash
fak_fun_hash-bytes = (refl, omega arith)

pub record IsLawful (c : Crypto) : Type 0 where
  pub sha256_length : (b : Bytes) → length (c.sha256 b) ≡ 32
  pub sha256_bytes : (b : Bytes) → All (λ x. x < 256) (c.sha256 b)
  pub sign_length : (d k : Bytes) → length (c.sign d k) ≡ 64
  pub sign_bytes : (d k : Bytes) → All (λ x. x < 256) (c.sign d k)
  pub sign_verifies : (d k : Bytes) → c.verify d (c.sign d k) (c.public_key k) ≡ true
  pub key_length : (k : Bytes) → length (c.public_key k) ≡ 33
  pub key_bytes : (k : Bytes) → All (λ x. x < 256) (c.public_key k)
  -- Both serialisers are SIP-005.
  pub same_serialisation : (v : Value) → from_hex (c.serialize_cv v) ≡ c.to_consensus_buff v
  pub sha256_fak_fun : c.sha256 (codes "fak.fun") ≡ fak_fun_hash
