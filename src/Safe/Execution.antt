-- ===== src/Safe/Execution.antt =====
-- The six entry points of juice-safe-v7.clar that carry out a pending operation: by an admin once
-- its delay has passed, or at once by the passkey where the passkey did not create it.
use pillar_wallets_xyz.Base.{ℕ, String, true, not, Option, none, Bytes, leb, ◌==◌, string_eq}
use pillar_wallets_xyz.Clarity.Outcome.{ok, unwrap, add_uint}
use pillar_wallets_xyz.Clarity.Contract.{lift, require, ◌>>=◌, ◌>>◌}
use pillar_wallets_xyz.Safe.State.{Operation, get_pending_operation}
use pillar_wallets_xyz.Safe.State.Code
use pillar_wallets_xyz.Safe.Hashes.{build_execute_now_hash}
use pillar_wallets_xyz.Safe.External.{
  Setting, Call, Withdrawal, read, update, outside, log_stx_transfer, log_sip010_transfer,
}
use pillar_wallets_xyz.Safe.Signature.{SigAuth, is_authorized}
use pillar_wallets_xyz.Safe.Operations.{update_activity, by_passkey, set_operation}

module _ (x : Setting) where
  -- The first tests of all six.
  unfoldable pub open_operation : String → ℕ → Call x Operation
  open_operation op_type op_id = do
    found ← read x (get_pending_operation op_id)
    op ← lift (unwrap found Code.invalid_operation)
    require (op.op_type == op_type) Code.invalid_operation
    require (not op.executed) Code.already_executed
    require (not op.vetoed) Code.vetoed
    lift (ok op)

  -- `(asserts! (>= burn-block-height (get execute-after op)) ...)` and the admin's authority.
  unfoldable pub by_admin_after : Operation → Call x (Unit {0})
  by_admin_after op = do
    require (leb op.execute_after x.env.burn_block_height) Code.cooldown_not_passed
    is_authorized x none
    update_activity x

  -- The tests of the `-now` variants, the signature and the gas.
  unfoldable pub by_passkey_now : ℕ → Operation → SigAuth → Option String → Call x (Unit {0})
  by_passkey_now op_id op sig gas = do
    require (not op.passkey_created) Code.forbidden
    locked ← read x (λ s. s.token_lock_enabled)
    require (not locked) Code.token_locked
    by_passkey x (build_execute_now_hash x.crypto x.env.chain_id x.env.current_contract op_id) sig
        gas

  -- `(map-set pending-operations op-id (merge op { executed: true }))`
  unfoldable pub mark_executed : ℕ → Operation → Call x (Unit {0})
  mark_executed op_id op = update x (set_operation op_id (record op { executed = true }))

  unfoldable pub pay_stx : Operation → Option Bytes → Call x (Unit {0})
  pay_stx op memo = do
    outside x (x.ext.core (log_stx_transfer op.amount op.recipient memo))
    outside x (x.ext.send_stx op.amount op.amount op.recipient memo)

  unfoldable pub execute_pending_stx_transfer : ℕ → Option Bytes → Call x (Unit {0})
  execute_pending_stx_transfer op_id memo = do
    op ← open_operation "stx-transfer" op_id
    by_admin_after op
    mark_executed op_id op
    pay_stx op memo

  unfoldable pub execute_pending_stx_transfer_now :
      ℕ → Option Bytes → SigAuth → Option String → Call x (Unit {0})
  execute_pending_stx_transfer_now op_id memo sig gas = do
    op ← open_operation "stx-transfer" op_id
    by_passkey_now op_id op sig gas
    mark_executed op_id op
    update_activity x
    pay_stx op memo

  unfoldable pub pay_sbtc : Operation → Option Bytes → Call x (Unit {0})
  pay_sbtc op memo = do
    outside x (x.ext.core (log_sip010_transfer Code.sbtc_contract op.amount op.recipient memo))
    outside x (x.ext.send_sbtc op.amount op.amount op.recipient memo)

  unfoldable pub execute_pending_sbtc_transfer : ℕ → Option Bytes → Call x (Unit {0})
  execute_pending_sbtc_transfer op_id memo = do
    op ← open_operation "sbtc-transfer" op_id
    by_admin_after op
    mark_executed op_id op
    pay_sbtc op memo

  unfoldable pub execute_pending_sbtc_transfer_now :
      ℕ → Option Bytes → SigAuth → Option String → Call x (Unit {0})
  execute_pending_sbtc_transfer_now op_id memo sig gas = do
    op ← open_operation "sbtc-transfer" op_id
    by_passkey_now op_id op sig gas
    mark_executed op_id op
    update_activity x
    pay_sbtc op memo

  -- The recipient and the fee that the payload keeps.
  unfoldable pub payload_of : Operation → Call x Withdrawal
  payload_of op = do
    raw ← lift (unwrap op.payload Code.invalid_operation)
    lift (unwrap (x.ext.withdrawal_of_buff raw) Code.invalid_operation)

  unfoldable pub withdraw_pending : Operation → ℕ → Withdrawal → Call x (Unit {0})
  withdraw_pending op total parsed =
      outside x (x.ext.initiate_withdrawal total op.amount parsed.recipient parsed.max_fee)

  unfoldable pub execute_pending_sbtc_withdrawal : ℕ → Call x (Unit {0})
  execute_pending_sbtc_withdrawal op_id = do
    op ← open_operation "sbtc-withdraw" op_id
    by_admin_after op
    parsed ← payload_of op
    total ← lift (add_uint op.amount parsed.max_fee)
    mark_executed op_id op
    withdraw_pending op total parsed

  unfoldable pub execute_pending_sbtc_withdrawal_now :
      ℕ → SigAuth → Option String → Call x (Unit {0})
  execute_pending_sbtc_withdrawal_now op_id sig gas = do
    op ← open_operation "sbtc-withdraw" op_id
    by_passkey_now op_id op sig gas
    parsed ← payload_of op
    total ← lift (add_uint op.amount parsed.max_fee)
    mark_executed op_id op
    update_activity x
    withdraw_pending op total parsed
