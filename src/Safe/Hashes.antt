-- ===== src/Safe/Hashes.antt =====
-- The SIP-018 message hashes that the wallet asks a passkey to sign: the builders of
-- smart-wallet-standard-auth-helpers-v7 and -v10, mm-safe-auth-helpers-v1 and
-- juice-safe-auth-helpers-v1, and of the -v8 that stands with the fuzz tests.
use pillar_wallets_xyz.Base.{ℕ, String, Bool, Option, none, some, ◌++◌, Bytes}
use pillar_wallets_xyz.Clarity.Value.{
  Value, Fields, uint, bool, buffer, principal, ascii, none_value, some_value, tuple, end, field,
}
use pillar_wallets_xyz.Sip018.{sip018_prefix}
use pillar_wallets_xyz.Webauthn.Crypto.{Crypto}

pub record BtcRecipient : Type 0 where
  pub version : Bytes
  pub hashbytes : Bytes

abbrev pub memo_value : Option Bytes → Value
memo_value none = none_value
memo_value (some memo) = some_value (buffer memo)

abbrev pub btc_recipient_value : BtcRecipient → Value
btc_recipient_value r =
    tuple (field "version" (buffer r.version) (field "hashbytes" (buffer r.hashbytes) end))

-- `wallet` is `contract-caller`: the wallet itself, which makes the call.
module _ (c : Crypto) (chain : ℕ) (wallet : String) where
  unfoldable pub get_domain_hash : Bytes
  get_domain_hash = c.sha256 (
      c.to_consensus_buff (
        tuple (
          field "name" (ascii "smart-wallet-standard") (
            field "version" (ascii "1.0.0")
              (field "chain-id" (uint chain) (field "wallet" (principal wallet) end))))))

  -- The tuple of a builder begins with its topic and the `auth-id`.
  unfoldable pub message_hash : String → ℕ → Fields → Bytes
  unfolding get_domain_hash
  message_hash topic auth_id details = c.sha256 (
      sip018_prefix
      ++ (get_domain_hash
          ++ c.sha256 (
              c.to_consensus_buff
                (tuple (field "topic" (ascii topic) (field "auth-id" (uint auth_id) details))))))

  unfoldable pub build_stx_transfer_hash : ℕ → String → Option Bytes → ℕ → Bytes
  build_stx_transfer_hash amount recipient memo auth_id = message_hash "stx-transfer" auth_id (
      field "amount" (uint amount)
        (field "recipient" (principal recipient) (field "memo" (memo_value memo) end)))

  unfoldable pub build_sip010_transfer_hash : ℕ → String → Option Bytes → String → ℕ → Bytes
  build_sip010_transfer_hash amount recipient memo sip010 auth_id =
      message_hash "sip010-transfer" auth_id (
        field "amount" (uint amount) (
          field "recipient" (principal recipient)
            (field "memo" (memo_value memo) (field "sip010" (principal sip010) end))))

  unfoldable pub build_sip009_transfer_hash : ℕ → String → String → ℕ → Bytes
  build_sip009_transfer_hash nft_id recipient sip009 auth_id =
      message_hash "sip009-transfer" auth_id (
        field "nft-id" (uint nft_id)
          (field "recipient" (principal recipient) (field "sip009" (principal sip009) end)))

  unfoldable pub build_sbtc_withdrawal_hash : ℕ → BtcRecipient → ℕ → ℕ → Bytes
  build_sbtc_withdrawal_hash amount recipient max_fee auth_id =
      message_hash "sbtc-withdrawal" auth_id (
        field "amount" (uint amount)
          (field "recipient" (btc_recipient_value recipient) (field "max-fee" (uint max_fee) end)))

  unfoldable pub build_veto_operation_hash : ℕ → ℕ → Bytes
  build_veto_operation_hash op_id auth_id =
      message_hash "veto-operation" auth_id (field "op-id" (uint op_id) end)

  unfoldable pub build_execute_now_hash : ℕ → ℕ → Bytes
  build_execute_now_hash op_id auth_id =
      message_hash "execute-now" auth_id (field "op-id" (uint op_id) end)

  unfoldable pub build_toggle_token_lock_hash : Bool → ℕ → Bytes
  build_toggle_token_lock_hash enabled auth_id =
      message_hash "toggle-token-lock" auth_id (field "enabled" (bool enabled) end)

  unfoldable pub build_confirm_transfer_hash : String → ℕ → Bytes
  build_confirm_transfer_hash new_admin auth_id =
      message_hash "confirm-transfer" auth_id (field "new-admin" (principal new_admin) end)

  unfoldable pub build_propose_recovery_hash : String → ℕ → Bytes
  build_propose_recovery_hash new_recovery auth_id =
      message_hash "propose-recovery" auth_id (field "new-recovery" (principal new_recovery) end)

  unfoldable pub build_confirm_max_gas_amount_hash : ℕ → ℕ → Bytes
  build_confirm_max_gas_amount_hash amount auth_id =
      message_hash "confirm-max-gas-amount" auth_id (field "amount" (uint amount) end)

  unfoldable pub build_set_wallet_config_hash : ℕ → ℕ → ℕ → ℕ → Bytes
  build_set_wallet_config_hash stx_threshold sbtc_threshold cooldown_period auth_id =
      message_hash "set-wallet-config" auth_id (
        field "stx-threshold" (uint stx_threshold) (
          field "sbtc-threshold" (uint sbtc_threshold)
            (field "cooldown-period" (uint cooldown_period) end)))

  unfoldable pub build_stake_stx_juice_pox5_hash : ℕ → ℕ → Bytes
  build_stake_stx_juice_pox5_hash amount_ustx auth_id =
      message_hash "stake-stx-juice-pox5" auth_id (field "amount-ustx" (uint amount_ustx) end)

  unfoldable pub build_update_stake_stx_juice_hash : ℕ → ℕ → ℕ → Bytes
  build_update_stake_stx_juice_hash amount_increase cycles_to_extend auth_id =
      message_hash "update-stake-stx-juice" auth_id (
        field "amount-increase" (uint amount_increase)
          (field "cycles-to-extend" (uint cycles_to_extend) end))

  unfoldable pub build_unstake_stx_juice_hash : ℕ → Bytes
  build_unstake_stx_juice_hash auth_id = message_hash "unstake-stx-juice" auth_id end
