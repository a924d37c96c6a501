-- ===== src/Safe/Transfers.antt =====
-- `stx-transfer`, `sip010-transfer`, `sbtc-initiate-withdrawal` and `sip009-transfer` of
-- juice-safe-v7.clar: at once within the limit, or as a pending operation past it.
use pillar_wallets_xyz.Base.{
  ℕ, String, Bool, true, false, Option, none, some, Bytes, ◌==◌, string_eq, if◌then◌else◌,
}
use pillar_wallets_xyz.Clarity.Outcome.{ok, add_uint}
use pillar_wallets_xyz.Clarity.Value.{uint, tuple, field, end}
use pillar_wallets_xyz.Clarity.Contract.{lift, ◌>>=◌, ◌>>◌, panicking}
use pillar_wallets_xyz.Safe.State.Code
use pillar_wallets_xyz.Safe.Hashes.{
  BtcRecipient, btc_recipient_value, build_stx_transfer_hash, build_sip010_transfer_hash,
  build_sip009_transfer_hash, build_sbtc_withdrawal_hash,
}
use pillar_wallets_xyz.Safe.External.{
  Setting, Call, outside, visit, send_sip010, send_sip009, log_stx_transfer, log_sip010_transfer,
  log_sip009_transfer,
}
use pillar_wallets_xyz.Safe.Signature.{SigAuth}
use pillar_wallets_xyz.Safe.Spending.{
  would_exceed_stx_threshold, would_exceed_sbtc_threshold, add_spent_stx, add_spent_sbtc,
}
use pillar_wallets_xyz.Safe.Operations.{
  update_activity, unlocked_passkey_or_admin, create_pending_operation,
}

abbrev pub is_some {ℓ} : {A : Type ℓ} → Option A → Bool
is_some none = false
is_some (some _) = true

module _ (x : Setting) where
  -- `(unwrap-panic (create-pending-operation ...))`
  unfoldable pub queue :
      String → ℕ → String → Option String → Option Bytes → Bool → Call x (Unit {0})
  queue op_type amount recipient token payload passkey_created = do
    op_id ←
        panicking
          (create_pending_operation x op_type amount recipient token none payload passkey_created)
    lift (ok tt)

  unfoldable pub stx_transfer_now : ℕ → String → Option Bytes → Call x (Unit {0})
  stx_transfer_now amount recipient memo = do
    add_spent_stx x amount
    outside x (x.ext.core (log_stx_transfer amount recipient memo))
    outside x (x.ext.send_stx amount amount recipient memo)

  unfoldable pub stx_transfer :
      ℕ → String → Option Bytes → Option SigAuth → Option String → Call x (Unit {0})
  stx_transfer amount recipient memo sig_auth gas = do
    update_activity x
    unlocked_passkey_or_admin x
        (build_stx_transfer_hash x.crypto x.env.chain_id x.env.current_contract amount recipient
          memo)
        sig_auth gas
    exceeds ← would_exceed_stx_threshold x amount
    if exceeds
        then queue "stx-transfer" amount recipient none none (is_some sig_auth)
        else stx_transfer_now amount recipient memo

  -- What leaves in sBTC counts towards the limit.
  unfoldable pub exceeds_if_sbtc : String → ℕ → Call x Bool
  exceeds_if_sbtc sip010 amount =
      if sip010 == Code.sbtc_contract then would_exceed_sbtc_threshold x amount else lift (ok false)

  unfoldable pub spend_if_sbtc : String → ℕ → Call x (Unit {0})
  spend_if_sbtc sip010 amount =
      if sip010 == Code.sbtc_contract then add_spent_sbtc x amount else lift (ok tt)

  unfoldable pub sip010_transfer_now :
      ℕ → String → Option Bytes → String → String → Call x (Unit {0})
  sip010_transfer_now amount recipient memo sip010 token_name = do
    spend_if_sbtc sip010 amount
    outside x (x.ext.core (log_sip010_transfer sip010 amount recipient memo))
    visit x (send_sip010 amount sip010 token_name amount recipient memo)

  unfoldable pub sip010_transfer :
      ℕ
      → String
      → Option Bytes
      → String
      → String
      → Option SigAuth
      → Option String
      → Call x (Unit {0})
  sip010_transfer amount recipient memo sip010 token_name sig_auth gas = do
    update_activity x
    unlocked_passkey_or_admin x
        (build_sip010_transfer_hash x.crypto x.env.chain_id x.env.current_contract amount recipient
          memo sip010)
        sig_auth gas
    exceeds ← exceeds_if_sbtc sip010 amount
    if exceeds
        then queue "sbtc-transfer" amount recipient (some Code.sbtc_contract) none
            (is_some sig_auth)
        else sip010_transfer_now amount recipient memo sip010 token_name

  -- `(to-consensus-buff? { recipient: recipient, max-fee: max-fee })`
  unfoldable pub withdrawal_payload : BtcRecipient → ℕ → Bytes
  withdrawal_payload recipient max_fee = x.crypto.to_consensus_buff (
      tuple
        (field "recipient" (btc_recipient_value recipient) (field "max-fee" (uint max_fee) end)))

  unfoldable pub withdraw_now : ℕ → ℕ → BtcRecipient → ℕ → Call x (Unit {0})
  withdraw_now total amount recipient max_fee = do
    add_spent_sbtc x total
    outside x (x.ext.initiate_withdrawal total amount recipient max_fee)

  unfoldable pub sbtc_initiate_withdrawal :
      ℕ → BtcRecipient → ℕ → Option SigAuth → Option String → Call x (Unit {0})
  sbtc_initiate_withdrawal amount recipient max_fee sig_auth gas = do
    update_activity x
    unlocked_passkey_or_admin x
        (build_sbtc_withdrawal_hash x.crypto x.env.chain_id x.env.current_contract amount recipient
          max_fee)
        sig_auth gas
    total ← lift (add_uint amount max_fee)
    exceeds ← would_exceed_sbtc_threshold x total
    if exceeds
        then queue "sbtc-withdraw" amount x.env.current_contract (some Code.sbtc_contract)
            (some (withdrawal_payload recipient max_fee)) (is_some sig_auth)
        else withdraw_now total amount recipient max_fee

  unfoldable pub sip009_transfer :
      ℕ → String → String → String → Option SigAuth → Option String → Call x (Unit {0})
  sip009_transfer nft_id recipient sip009 token_name sig_auth gas = do
    update_activity x
    unlocked_passkey_or_admin x
        (build_sip009_transfer_hash x.crypto x.env.chain_id x.env.current_contract nft_id recipient
          sip009)
        sig_auth gas
    outside x (x.ext.core (log_sip009_transfer nft_id recipient sip009))
    visit x (send_sip009 nft_id sip009 token_name recipient)
