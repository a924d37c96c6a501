-- ===== src/Wager/Hashes.antt =====
-- The SIP-018 message hashes that game-wager-v2.clar rebuilds.
use pillar_wallets_xyz.Base.{ℕ, String, ◌++◌, Bytes}
use pillar_wallets_xyz.Clarity.Value.{Value, uint, principal, ascii, buffer, tuple, end, field}
use pillar_wallets_xyz.Sip018.{sip018_prefix}
use pillar_wallets_xyz.Webauthn.Crypto.{Crypto}

-- `chain` and `contract` are the keywords `chain-id` and `current-contract`.
module _ (c : Crypto) (chain : ℕ) (contract : String) where
  unfoldable pub get_domain_hash : Bytes
  get_domain_hash = c.sha256 (
      c.to_consensus_buff (
        tuple (
          field "chain-id" (uint chain) (
            field "contract" (principal contract)
              (field "name" (ascii "game-wager") (field "version" (ascii "2.0.0") end))))))

  -- `(sha256 (concat SIP018_MSG_PREFIX (concat (get-domain-hash) (sha256 ...))))`
  unfoldable pub message_hash : Value → Bytes
  unfolding get_domain_hash
  message_hash v = c.sha256 (sip018_prefix ++ (get_domain_hash ++ c.sha256 (c.to_consensus_buff v)))

  unfoldable pub build_register_wallet_hash : ℕ → String → Bytes
  unfolding message_hash
  build_register_wallet_hash auth_id wallet = message_hash (
      tuple (
        field "auth-id" (uint auth_id)
          (field "topic" (ascii "register-wallet") (field "wallet" (principal wallet) end))))

  unfoldable pub build_withdraw_hash : ℕ → ℕ → String → String → Bytes
  unfolding message_hash
  build_withdraw_hash auth_id amount recipient token = message_hash (
      tuple (
        field "amount" (uint amount) (
          field "auth-id" (uint auth_id) (
            field "recipient" (principal recipient)
              (field "token" (principal token) (field "topic" (ascii "withdraw") end))))))

  unfoldable pub build_wager_hash : ℕ → Bytes → String → ℕ → Bytes
  unfolding message_hash
  build_wager_hash auth_id opponent token wager_amount = message_hash (
      tuple (
        field "auth-id" (uint auth_id) (
          field "opponent" (buffer opponent) (
            field "token" (principal token)
              (field "topic" (ascii "wager") (field "wager-amount" (uint wager_amount) end))))))
