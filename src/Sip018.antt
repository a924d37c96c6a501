-- ===== src/Sip018.antt =====
-- SIP-018 structured-data hashes, as the simulations build them:
-- sha256( "SIP018" || sha256(domain) || sha256(message) ).
pub mod Dump
use pillar_wallets_xyz.Base.{[], ◌∷◌, Bytes, String}
use pillar_wallets_xyz.Encoding.Hex.{from_hex}
use pillar_wallets_xyz.Clarity.Value.{Value, uint, principal, ascii, tuple, end, field}
use pillar_wallets_xyz.Webauthn.Crypto.{Crypto}

-- `Buffer.from("534950303138", "hex")`
abbrev pub sip018_prefix : Bytes
sip018_prefix = 0x53 ∷ 0x49 ∷ 0x50 ∷ 0x30 ∷ 0x31 ∷ 0x38 ∷ []

module _ (c : Crypto) where
  -- `sha256(Buffer.from(serializeCV(cv), "hex"))`
  unfoldable pub cv_sha256 : Value → Bytes
  cv_sha256 v = c.sha256 (from_hex (c.serialize_cv v))

  -- The domain of the smart wallets.
  unfoldable pub wallet_domain_hash : String → Bytes
  unfolding cv_sha256
  wallet_domain_hash wallet = cv_sha256 (
      tuple (
        field "name" (ascii "smart-wallet-standard") (
          field "version" (ascii "1.0.0")
            (field "chain-id" (uint 1) (field "wallet" (principal wallet) end)))))
