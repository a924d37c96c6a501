-- ===== src/Safe/Frame/Operations.antt =====
-- The entry points of juice-safe-v7.clar on pending operations, and all entry points together.
use pillar_wallets_xyz.Base.{ℕ, String, Bool, true, Option, Bytes}
use pillar_wallets_xyz.Clarity.Contract.Keeps.{Change, Keeps}
use pillar_wallets_xyz.Safe.State.{Safe, Operation}
use pillar_wallets_xyz.Safe.Hashes.{BtcRecipient}
use pillar_wallets_xyz.Safe.External.{Setting, Withdrawal, update}
use pillar_wallets_xyz.Safe.Signature.{SigAuth}
use pillar_wallets_xyz.Safe.Operations.{
  create_pending_operation, set_operation, set_nonce, veto_operation,
}
use pillar_wallets_xyz.Safe.Transfers.{stx_transfer, sip010_transfer, sbtc_initiate_withdrawal}
use pillar_wallets_xyz.Safe.Config.{set_lock, signal_config_change, set_wallet_config}
use pillar_wallets_xyz.Safe.Ownership.{onboard}
use pillar_wallets_xyz.Safe.Execution.{
  open_operation, by_admin_after, by_passkey_now, mark_executed, pay_stx, pay_sbtc, payload_of,
  withdraw_pending, execute_pending_stx_transfer, execute_pending_stx_transfer_now,
  execute_pending_sbtc_transfer, execute_pending_sbtc_transfer_now, execute_pending_sbtc_withdrawal,
  execute_pending_sbtc_withdrawal_now,
}
use pillar_wallets_xyz.Safe.Entry.{Entry, exec}
use pillar_wallets_xyz.Safe.Frame.{on_chain, AllowsCalls, frame_rules}
use pillar_wallets_xyz.Safe.Frame.Entries.{
  AllowsSettings, AllowsOwners, sip009_transfer-Keeps, stake_stx_juice-Keeps,
  update_stake_stx_juice-Keeps, unstake-Keeps, propose_max_gas_amount-Keeps,
  confirm_max_gas_amount-Keeps, toggle_token_lock-Keeps, propose_transfer_wallet-Keeps,
  confirm_transfer_wallet-Keeps, propose_recovery-Keeps, confirm_recovery-Keeps,
  recover_inactive_wallet-Keeps,
}

module _ (x : Setting) (R : Change Safe) where
  pub record AllowsOperations : Type 0 where
    pub executes :
        (id : ℕ) (op : Operation)
        → Keeps (on_chain x R) (update x (set_operation id (record op { executed = true })))
    pub vetoes :
        (id : ℕ) (op : Operation)
        → Keeps (on_chain x R) (update x (set_operation id (record op { vetoed = true })))

  pub record AllowsOrders : Type 0 where
    pub sets : (id : ℕ) (op : Operation) → Keeps (on_chain x R) (update x (set_operation id op))
    pub counts : (n : ℕ) → Keeps (on_chain x R) (update x (set_nonce n))

  pub open_operation-Keeps :
      (op_type : String) (id : ℕ) → Keeps (on_chain x R) (open_operation x op_type id)
  unfolding open_operation
  open_operation-Keeps op_type id = search (frame_rules) depth 40

  pub payload_of-Keeps : (op : Operation) → Keeps (on_chain x R) (payload_of x op)
  unfolding payload_of
  payload_of-Keeps op = search (frame_rules) depth 40

  pub pay_stx-Keeps :
      (op : Operation) (memo : Option Bytes) → Keeps (on_chain x R) (pay_stx x op memo)
  unfolding pay_stx
  pay_stx-Keeps op memo = search (frame_rules) depth 40

  pub pay_sbtc-Keeps :
      (op : Operation) (memo : Option Bytes) → Keeps (on_chain x R) (pay_sbtc x op memo)
  unfolding pay_sbtc
  pay_sbtc-Keeps op memo = search (frame_rules) depth 40

  pub withdraw_pending-Keeps :
      (op : Operation) (n : ℕ) (w : Withdrawal) → Keeps (on_chain x R) (withdraw_pending x op n w)
  unfolding withdraw_pending
  withdraw_pending-Keeps op n w = search (frame_rules) depth 40

module _ (x : Setting) (R : Change Safe) (calls : AllowsCalls x R) where
  pub by_admin_after-Keeps : (op : Operation) → Keeps (on_chain x R) (by_admin_after x op)
  unfolding by_admin_after
  by_admin_after-Keeps op = search (frame_rules) depth 40

  pub by_passkey_now-Keeps :
      (id : ℕ) (op : Operation) (sig : SigAuth) (gas : Option String)
      → Keeps (on_chain x R) (by_passkey_now x id op sig gas)
  unfolding by_passkey_now
  by_passkey_now-Keeps id op sig gas = search (frame_rules) depth 40

pub ruleset execution_rules = (
  frame_rules, open_operation-Keeps, payload_of-Keeps, pay_stx-Keeps, pay_sbtc-Keeps,
  withdraw_pending-Keeps, by_admin_after-Keeps, by_passkey_now-Keeps,
)

module _ (x : Setting) (R : Change Safe) (orders : AllowsOrders x R) where
  pub create_pending_operation-Keeps :
      (op_type : String) (n : ℕ) (to : String) (token extension : Option String)
      (payload : Option Bytes) (by_key : Bool)
      → Keeps
          (on_chain x R)
          (create_pending_operation x op_type n to token extension payload by_key)
  unfolding create_pending_operation
  create_pending_operation-Keeps op_type n to token extension payload by_key =
      search (frame_rules, orders.sets, orders.counts) depth 40

module _ (x : Setting) (R : Change Safe) (calls : AllowsCalls x R)
    (ops : AllowsOperations x R) where
  veto_operation-Keeps :
      (id : ℕ) (sig : Option SigAuth) (gas : Option String)
      → Keeps (on_chain x R) (veto_operation x id sig gas)
  unfolding veto_operation
  veto_operation-Keeps id sig gas = search (frame_rules, ops.vetoes) depth 40

  pub mark_executed-Keeps : (id : ℕ) (op : Operation) → Keeps (on_chain x R) (mark_executed x id op)
  unfolding mark_executed
  mark_executed-Keeps id op = ops.executes id op

  execute_stx-Keeps :
      (id : ℕ) (memo : Option Bytes) → Keeps (on_chain x R) (execute_pending_stx_transfer x id memo)
  unfolding execute_pending_stx_transfer
  execute_stx-Keeps id memo = search (execution_rules, mark_executed-Keeps) depth 40

  execute_stx_now-Keeps :
      (id : ℕ) (memo : Option Bytes) (sig : SigAuth) (gas : Option String)
      → Keeps (on_chain x R) (execute_pending_stx_transfer_now x id memo sig gas)
  unfolding execute_pending_stx_transfer_now
  execute_stx_now-Keeps id memo sig gas = search (execution_rules, mark_executed-Keeps) depth 40

  execute_sbtc-Keeps :
      (id : ℕ) (memo : Option Bytes)
      → Keeps (on_chain x R) (execute_pending_sbtc_transfer x id memo)
  unfolding execute_pending_sbtc_transfer
  execute_sbtc-Keeps id memo = search (execution_rules, mark_executed-Keeps) depth 40

  execute_sbtc_now-Keeps :
      (id : ℕ) (memo : Option Bytes) (sig : SigAuth) (gas : Option String)
      → Keeps (on_chain x R) (execute_pending_sbtc_transfer_now x id memo sig gas)
  unfolding execute_pending_sbtc_transfer_now
  execute_sbtc_now-Keeps id memo sig gas = search (execution_rules, mark_executed-Keeps) depth 40

  execute_withdrawal-Keeps : (id : ℕ) → Keeps (on_chain x R) (execute_pending_sbtc_withdrawal x id)
  unfolding execute_pending_sbtc_withdrawal
  execute_withdrawal-Keeps id = search (execution_rules, mark_executed-Keeps) depth 40

  execute_withdrawal_now-Keeps :
      (id : ℕ) (sig : SigAuth) (gas : Option String)
      → Keeps (on_chain x R) (execute_pending_sbtc_withdrawal_now x id sig gas)
  unfolding execute_pending_sbtc_withdrawal_now
  execute_withdrawal_now-Keeps id sig gas = search (execution_rules, mark_executed-Keeps) depth 40

module _ (x : Setting) (R : Change Safe) where
  -- The groups, and the entry points that move assets or set the limits.
  pub record AllowsEntries : Type 0 where
    pub calls : AllowsCalls x R
    pub settings : AllowsSettings x R
    pub locks : (b : Bool) → Keeps (on_chain x R) (update x (set_lock b))
    pub owners : AllowsOwners x R
    pub operations : AllowsOperations x R
    pub signals : (a b d : ℕ) → Keeps (on_chain x R) (signal_config_change x a b d)
    pub configures :
        (sig : SigAuth) (gas : Option String) → Keeps (on_chain x R) (set_wallet_config x sig gas)
    pub onboards :
        (key : Bytes) (owner recovery : String) (a b d : ℕ)
        → Keeps (on_chain x R) (onboard x key owner recovery a b d)
    pub transfers_stx :
        (n : ℕ) (to : String) (memo : Option Bytes) (sig : Option SigAuth) (gas : Option String)
        → Keeps (on_chain x R) (stx_transfer x n to memo sig gas)
    pub transfers_sip010 :
        (n : ℕ) (to : String) (memo : Option Bytes) (token name : String) (sig : Option SigAuth)
        (gas : Option String)
        → Keeps (on_chain x R) (sip010_transfer x n to memo token name sig gas)
    pub withdraws :
        (n : ℕ) (to : BtcRecipient) (fee : ℕ) (sig : Option SigAuth) (gas : Option String)
        → Keeps (on_chain x R) (sbtc_initiate_withdrawal x n to fee sig gas)

  pub exec-Keeps : AllowsEntries → (e : Entry) → Keeps (on_chain x R) (exec x e)
  unfolding exec
  exec-Keeps a (Entry.propose_max_gas_amount n) =
      propose_max_gas_amount-Keeps x R a.calls a.settings n
  exec-Keeps a (Entry.confirm_max_gas_amount sig gas) =
      confirm_max_gas_amount-Keeps x R a.calls a.settings sig gas
  exec-Keeps a (Entry.toggle_token_lock b sig gas) =
      toggle_token_lock-Keeps x R a.calls a.locks b sig gas
  exec-Keeps a (Entry.signal_config_change stx sbtc cooldown) = a.signals stx sbtc cooldown
  exec-Keeps a (Entry.set_wallet_config sig gas) = a.configures sig gas
  exec-Keeps a (Entry.veto_operation id sig gas) =
      veto_operation-Keeps x R a.calls a.operations id sig gas
  exec-Keeps a (Entry.stx_transfer n to memo sig gas) = a.transfers_stx n to memo sig gas
  exec-Keeps a (Entry.execute_pending_stx_transfer id memo) =
      execute_stx-Keeps x R a.calls a.operations id memo
  exec-Keeps a (Entry.execute_pending_stx_transfer_now id memo sig gas) =
      execute_stx_now-Keeps x R a.calls a.operations id memo sig gas
  exec-Keeps a (Entry.sip010_transfer n to memo token name sig gas) =
      a.transfers_sip010 n to memo token name sig gas
  exec-Keeps a (Entry.execute_pending_sbtc_transfer id memo) =
      execute_sbtc-Keeps x R a.calls a.operations id memo
  exec-Keeps a (Entry.execute_pending_sbtc_transfer_now id memo sig gas) =
      execute_sbtc_now-Keeps x R a.calls a.operations id memo sig gas
  exec-Keeps a (Entry.sbtc_initiate_withdrawal n to fee sig gas) = a.withdraws n to fee sig gas
  exec-Keeps a (Entry.execute_pending_sbtc_withdrawal id) =
      execute_withdrawal-Keeps x R a.calls a.operations id
  exec-Keeps a (Entry.execute_pending_sbtc_withdrawal_now id sig gas) =
      execute_withdrawal_now-Keeps x R a.calls a.operations id sig gas
  exec-Keeps a (Entry.sip009_transfer n to token name sig gas) =
      sip009_transfer-Keeps x R a.calls n to token name sig gas
  exec-Keeps a (Entry.propose_transfer_wallet admin) =
      propose_transfer_wallet-Keeps x R a.calls a.owners admin
  exec-Keeps a (Entry.confirm_transfer_wallet sig gas) =
      confirm_transfer_wallet-Keeps x R a.calls a.owners sig gas
  exec-Keeps a (Entry.propose_recovery recovery sig gas) =
      propose_recovery-Keeps x R a.calls a.owners recovery sig gas
  exec-Keeps a Entry.confirm_recovery = confirm_recovery-Keeps x R a.calls a.owners
  exec-Keeps a (Entry.recover_inactive_wallet admin) =
      recover_inactive_wallet-Keeps x R a.calls a.owners admin
  exec-Keeps a (Entry.stake_stx_juice n sig gas) = stake_stx_juice-Keeps x R a.calls n sig gas
  exec-Keeps a (Entry.update_stake_stx_juice n cycles sig gas) =
      update_stake_stx_juice-Keeps x R a.calls n cycles sig gas
  exec-Keeps a (Entry.unstake sig gas) = unstake-Keeps x R a.calls sig gas
  exec-Keeps a (Entry.onboard key owner recovery stx sbtc cooldown) =
      a.onboards key owner recovery stx sbtc cooldown
