-- ===== src/Sip018/Dump.antt =====
-- dump-sip018.mjs prints the buffers and hashes behind one challenge of a smart wallet.
use pillar_wallets_xyz.Base.{String, List, [], ◌∷◌, ◌++◌, Bytes, codes}
use pillar_wallets_xyz.Clarity.Value.{Value, uint, principal, ascii, tuple, end, field}
use pillar_wallets_xyz.Encoding.Hex.{to_hex, from_hex}
use pillar_wallets_xyz.Webauthn.Crypto.{Crypto}

abbrev pub dump_wallet : String
dump_wallet = "SPV9K21TBFAK4KNRJXF5DFP8N7W46G4V9RCJDC22.fakfun-wallet-v2"

abbrev pub dump_user : String
dump_user = "SP2C7BCAP2NH3EYWCCVHJ6K0DMZBXDFKQ56KR7QN2"

abbrev pub dump_prefix : Bytes
dump_prefix = 0x53 ∷ 0x49 ∷ 0x50 ∷ 0x30 ∷ 0x31 ∷ 0x38 ∷ []

abbrev pub dump_domain : Value
dump_domain = tuple (
    field "name" (ascii "smart-wallet-standard") (
      field "version" (ascii "1.0.0")
        (field "chain-id" (uint 1) (field "wallet" (principal dump_wallet) end))))

abbrev pub dump_message : Value
dump_message = tuple (
    field "topic" (ascii "add-admin")
      (field "auth-id" (uint 0) (field "new-admin" (principal dump_user) end)))

module _ (c : Crypto) where
  unfoldable pub dump_challenge : Bytes
  dump_challenge =
      let domain_hash = c.sha256 (from_hex (c.serialize_cv dump_domain)) in
      let msg_hash = c.sha256 (from_hex (c.serialize_cv dump_message)) in
      c.sha256 (dump_prefix ++ (domain_hash ++ msg_hash))

  -- What is printed, line by line.
  unfoldable pub dump_lines : List Bytes
  unfolding dump_challenge
  dump_lines =
      let domain_bytes = from_hex (c.serialize_cv dump_domain) in
      let msg_bytes = from_hex (c.serialize_cv dump_message) in
      codes "Domain consensus buff (hex):"
      ∷ to_hex domain_bytes
      ∷ (codes "Domain hash: " ++ to_hex (c.sha256 domain_bytes))
      ∷ []
      ∷ codes "Message consensus buff (hex):"
      ∷ to_hex msg_bytes
      ∷ (codes "Message hash: " ++ to_hex (c.sha256 msg_bytes))
      ∷ []
      ∷ (codes "Final challenge: " ++ to_hex dump_challenge)
      ∷ []
      ∷ codes "On-chain step 8 (message tuple) for comparison:"
      ∷ codes
          "02000000520c0000000307617574682d69640100000000000000000000000000000000096e65772d61646d696e05169875b1561562377b8c66e3234c0da7d7d6be772905746f7069630d000000096164642d61646d696e"
      ∷ []
