-- ===== src/Safe/Used/Signed.antt =====
-- Every entry point of juice-safe-v7.clar that a passkey signs spends the assertion.
use mathlib.Core.Path.{subst}
use pillar_wallets_xyz.Base.{
  ℕ, String, true, false, Option, none, some, Bytes, ◌≡◌, refl, if◌then◌else◌,
}
use pillar_wallets_xyz.Clarity.Contract.Keeps.{Keeps}
use pillar_wallets_xyz.Safe.State.{Operation}
use pillar_wallets_xyz.Safe.Hashes.{BtcRecipient}
use pillar_wallets_xyz.Safe.External.{Setting, Call, visit, ChosenCall}
use pillar_wallets_xyz.Safe.Signature.{SigAuth, assertion_id, is_authorized}
use pillar_wallets_xyz.Safe.Operations.{
  update_activity, unlocked_passkey_or_admin, passkey_or_admin, veto_operation,
}
use pillar_wallets_xyz.Safe.Transfers
use pillar_wallets_xyz.Safe.Execution
use pillar_wallets_xyz.Safe.Config
use pillar_wallets_xyz.Safe.Ownership
use pillar_wallets_xyz.Safe.Staking
use pillar_wallets_xyz.Safe.Entry.{Entry, exec}
use pillar_wallets_xyz.Safe.Frame.{on_chain, frame_rules}
use pillar_wallets_xyz.Safe.Frame.Entries.{queue-Keeps, hand_over-Keeps, delay_passed-Keeps}
use pillar_wallets_xyz.Safe.Frame.Operations.{execution_rules, mark_executed-Keeps}
use pillar_wallets_xyz.Safe.Used.{
  all_kept, recorded, always, elsewhere, used-AllowsCalls, used-AllowsOperations,
  used-AllowsSpending, used-AllowsQueue, used-AllowsOwners, spends_stx, spends_sbtc,
}
use pillar_wallets_xyz.Safe.Used.Spends.{
  Spends, Spends-first, Spends-later, consume_signature-Spends, by_passkey-Spends,
}

module _ (x : Setting) where
  activity-Keeps : Keeps (on_chain x all_kept) (update_activity x)
  unfolding update_activity
  activity-Keeps = always x _ (λ _. refl)

ruleset used_rules = (
  always, activity-Keeps, Spends-first, Spends-later, consume_signature-Spends, by_passkey-Spends,
  frame_rules, execution_rules, elsewhere, refl, used-AllowsCalls, used-AllowsOperations,
  used-AllowsSpending, used-AllowsQueue, used-AllowsOwners, queue-Keeps, hand_over-Keeps,
  delay_passed-Keeps, mark_executed-Keeps, spends_stx, spends_sbtc,
)

module _ (x : Setting) (sig : SigAuth) (gas : Option String)
    (visits : (call : ChosenCall)
      → Keeps (on_chain x (recorded (assertion_id x.crypto sig))) (visit x call)) where
  abbrev SpendsIt : Call x (Unit {0}) → Type 0
  SpendsIt m = Spends x (assertion_id x.crypto sig) m

  unlocked-Spends :
      (build : ℕ → Bytes) → SpendsIt (unlocked_passkey_or_admin x build (some sig) gas)
  unfolding unlocked_passkey_or_admin
  unlocked-Spends build = search used_rules depth 30

  either-Spends : (build : ℕ → Bytes) → SpendsIt (passkey_or_admin x build (some sig) gas)
  unfolding passkey_or_admin
  either-Spends build = search used_rules depth 30

  confirm_max_gas_amount-Spends : SpendsIt (Config.confirm_max_gas_amount x sig gas)
  unfolding Config.confirm_max_gas_amount
  confirm_max_gas_amount-Spends = search used_rules depth 30

  stx_transfer-Spends :
      (n : ℕ) (to : String) (memo : Option Bytes)
      → SpendsIt (Transfers.stx_transfer x n to memo (some sig) gas)
  unfolding Transfers.stx_transfer Transfers.stx_transfer_now
  stx_transfer-Spends n to memo = search (used_rules, unlocked-Spends) depth 30

  sip010_transfer-Spends :
      (n : ℕ) (to : String) (memo : Option Bytes) (token name : String)
      → SpendsIt (Transfers.sip010_transfer x n to memo token name (some sig) gas)
  unfolding Transfers.sip010_transfer Transfers.sip010_transfer_now Transfers.exceeds_if_sbtc
      Transfers.spend_if_sbtc
  sip010_transfer-Spends n to memo token name = search (used_rules, unlocked-Spends) depth 30

  sbtc_initiate_withdrawal-Spends :
      (n : ℕ) (to : BtcRecipient) (fee : ℕ)
      → SpendsIt (Transfers.sbtc_initiate_withdrawal x n to fee (some sig) gas)
  unfolding Transfers.sbtc_initiate_withdrawal Transfers.withdraw_now
  sbtc_initiate_withdrawal-Spends n to fee = search (used_rules, unlocked-Spends) depth 30

  sip009_transfer-Spends :
      (n : ℕ) (to token name : String)
      → SpendsIt (Transfers.sip009_transfer x n to token name (some sig) gas)
  unfolding Transfers.sip009_transfer
  sip009_transfer-Spends n to token name = search (used_rules, unlocked-Spends) depth 30

  veto_operation-Spends : (id : ℕ) → SpendsIt (veto_operation x id (some sig) gas)
  unfolding veto_operation
  veto_operation-Spends id = search (used_rules, either-Spends) depth 30

  toggle_token_lock-Spends : SpendsIt (Config.toggle_token_lock x true (some sig) gas)
  unfolding Config.toggle_token_lock Config.may_toggle
  toggle_token_lock-Spends = search (used_rules, either-Spends) depth 30

  set_wallet_config-Spends : SpendsIt (Config.set_wallet_config x sig gas)
  unfolding Config.set_wallet_config
  set_wallet_config-Spends = search used_rules depth 30

  confirm_transfer_wallet-Spends : SpendsIt (Ownership.confirm_transfer_wallet x sig gas)
  unfolding Ownership.confirm_transfer_wallet is_authorized
  confirm_transfer_wallet-Spends = search used_rules depth 30

  propose_recovery-Spends : (to : String) → SpendsIt (Ownership.propose_recovery x to sig gas)
  unfolding Ownership.propose_recovery
  propose_recovery-Spends to = search used_rules depth 30

  by_passkey_now-Spends :
      (id : ℕ) (op : Operation) → SpendsIt (Execution.by_passkey_now x id op sig gas)
  unfolding Execution.by_passkey_now
  by_passkey_now-Spends id op = search used_rules depth 30

  execute_stx-Spends :
      (id : ℕ) (memo : Option Bytes)
      → SpendsIt (Execution.execute_pending_stx_transfer_now x id memo sig gas)
  unfolding Execution.execute_pending_stx_transfer_now
  execute_stx-Spends id memo = search (used_rules, by_passkey_now-Spends) depth 30

  execute_sbtc-Spends :
      (id : ℕ) (memo : Option Bytes)
      → SpendsIt (Execution.execute_pending_sbtc_transfer_now x id memo sig gas)
  unfolding Execution.execute_pending_sbtc_transfer_now
  execute_sbtc-Spends id memo = search (used_rules, by_passkey_now-Spends) depth 30

  execute_withdrawal-Spends :
      (id : ℕ) → SpendsIt (Execution.execute_pending_sbtc_withdrawal_now x id sig gas)
  unfolding Execution.execute_pending_sbtc_withdrawal_now
  execute_withdrawal-Spends id = search (used_rules, by_passkey_now-Spends) depth 30

  stake_stx_juice-Spends : (n : ℕ) → SpendsIt (Staking.stake_stx_juice x n (some sig) gas)
  unfolding Staking.stake_stx_juice
  stake_stx_juice-Spends n = search (used_rules, unlocked-Spends) depth 30

  update_stake_stx_juice-Spends :
      (n cycles : ℕ) → SpendsIt (Staking.update_stake_stx_juice x n cycles (some sig) gas)
  unfolding Staking.update_stake_stx_juice
  update_stake_stx_juice-Spends n cycles = search (used_rules, unlocked-Spends) depth 30

  unstake-Spends : SpendsIt (Staking.unstake x (some sig) gas)
  unfolding Staking.unstake
  unstake-Spends = search (used_rules, unlocked-Spends) depth 30

-- The assertion by which a passkey authorises a call, if one does.
abbrev pub passkey_of : Entry → Option SigAuth
passkey_of (Entry.confirm_max_gas_amount sig gas) = some sig
passkey_of (Entry.toggle_token_lock enabled sig gas) = if enabled then sig else none
passkey_of (Entry.set_wallet_config sig gas) = some sig
passkey_of (Entry.veto_operation id sig gas) = sig
passkey_of (Entry.stx_transfer n to memo sig gas) = sig
passkey_of (Entry.execute_pending_stx_transfer_now id memo sig gas) = some sig
passkey_of (Entry.sip010_transfer n to memo token name sig gas) = sig
passkey_of (Entry.execute_pending_sbtc_transfer_now id memo sig gas) = some sig
passkey_of (Entry.sbtc_initiate_withdrawal n to fee sig gas) = sig
passkey_of (Entry.execute_pending_sbtc_withdrawal_now id sig gas) = some sig
passkey_of (Entry.sip009_transfer n to token name sig gas) = sig
passkey_of (Entry.confirm_transfer_wallet sig gas) = some sig
passkey_of (Entry.propose_recovery to sig gas) = some sig
passkey_of (Entry.stake_stx_juice n sig gas) = sig
passkey_of (Entry.update_stake_stx_juice n cycles sig gas) = sig
passkey_of (Entry.unstake sig gas) = sig
passkey_of _ = none

module _ (x : Setting) where
  same_sig :
      {m : Call x (Unit {0})} (s : SigAuth) {sig : SigAuth}
      → some s ≡ some sig
      → Spends x (assertion_id x.crypto s) m
      → Spends x (assertion_id x.crypto sig) m
  same_sig {m} s {sig} h k =
      let eq : s ≡ sig = cc in subst (λ s'. Spends x (assertion_id x.crypto s') m) eq k

  signed_by :
      (s : SigAuth) {sig : SigAuth}
      → some s ≡ some sig
      → ((call : ChosenCall)
          → Keeps (on_chain x (recorded (assertion_id x.crypto sig))) (visit x call))
      → (call : ChosenCall) → Keeps (on_chain x (recorded (assertion_id x.crypto s))) (visit x call)
  signed_by s {sig} h v call =
      let eq : sig ≡ s = cc in
      subst (λ s'. Keeps (on_chain x (recorded (assertion_id x.crypto s'))) (visit x call)) eq
        (v call)

  pub exec-Spends :
      (e : Entry) {sig : SigAuth}
      → ((call : ChosenCall)
          → Keeps (on_chain x (recorded (assertion_id x.crypto sig))) (visit x call))
      → passkey_of e ≡ some sig
      → Spends x (assertion_id x.crypto sig) (exec x e)
  unfolding exec
  exec-Spends (Entry.veto_operation id (some s) gas) v h =
      same_sig s h (veto_operation-Spends x s gas (signed_by s h v) id)
  exec-Spends (Entry.veto_operation id none gas) v h = absurd (cc)
  exec-Spends (Entry.stx_transfer n to memo (some s) gas) v h =
      same_sig s h (stx_transfer-Spends x s gas (signed_by s h v) n to memo)
  exec-Spends (Entry.stx_transfer n to memo none gas) v h = absurd (cc)
  exec-Spends (Entry.sip010_transfer n to memo token name (some s) gas) v h =
      same_sig s h (sip010_transfer-Spends x s gas (signed_by s h v) n to memo token name)
  exec-Spends (Entry.sip010_transfer n to memo token name none gas) v h = absurd (cc)
  exec-Spends (Entry.sbtc_initiate_withdrawal n to fee (some s) gas) v h =
      same_sig s h (sbtc_initiate_withdrawal-Spends x s gas (signed_by s h v) n to fee)
  exec-Spends (Entry.sbtc_initiate_withdrawal n to fee none gas) v h = absurd (cc)
  exec-Spends (Entry.sip009_transfer n to token name (some s) gas) v h =
      same_sig s h (sip009_transfer-Spends x s gas (signed_by s h v) n to token name)
  exec-Spends (Entry.sip009_transfer n to token name none gas) v h = absurd (cc)
  exec-Spends (Entry.stake_stx_juice n (some s) gas) v h =
      same_sig s h (stake_stx_juice-Spends x s gas (signed_by s h v) n)
  exec-Spends (Entry.stake_stx_juice n none gas) v h = absurd (cc)
  exec-Spends (Entry.update_stake_stx_juice n cycles (some s) gas) v h =
      same_sig s h (update_stake_stx_juice-Spends x s gas (signed_by s h v) n cycles)
  exec-Spends (Entry.update_stake_stx_juice n cycles none gas) v h = absurd (cc)
  exec-Spends (Entry.unstake (some s) gas) v h =
      same_sig s h (unstake-Spends x s gas (signed_by s h v))
  exec-Spends (Entry.unstake none gas) v h = absurd (cc)
  exec-Spends (Entry.toggle_token_lock true (some s) gas) v h =
      same_sig s h (toggle_token_lock-Spends x s gas (signed_by s h v))
  exec-Spends (Entry.toggle_token_lock true none gas) v h = absurd (cc)
  exec-Spends (Entry.confirm_max_gas_amount s gas) v h =
      same_sig s h (confirm_max_gas_amount-Spends x s gas (signed_by s h v))
  exec-Spends (Entry.set_wallet_config s gas) v h =
      same_sig s h (set_wallet_config-Spends x s gas (signed_by s h v))
  exec-Spends (Entry.execute_pending_stx_transfer_now id memo s gas) v h =
      same_sig s h (execute_stx-Spends x s gas (signed_by s h v) id memo)
  exec-Spends (Entry.execute_pending_sbtc_transfer_now id memo s gas) v h =
      same_sig s h (execute_sbtc-Spends x s gas (signed_by s h v) id memo)
  exec-Spends (Entry.execute_pending_sbtc_withdrawal_now id s gas) v h =
      same_sig s h (execute_withdrawal-Spends x s gas (signed_by s h v) id)
  exec-Spends (Entry.confirm_transfer_wallet s gas) v h =
      same_sig s h (confirm_transfer_wallet-Spends x s gas (signed_by s h v))
  exec-Spends (Entry.propose_recovery to s gas) v h =
      same_sig s h (propose_recovery-Spends x s gas (signed_by s h v) to)
  exec-Spends (Entry.propose_max_gas_amount n) v h = absurd (cc)
  exec-Spends (Entry.toggle_token_lock false sig gas) v h = absurd (cc)
  exec-Spends (Entry.signal_config_change a b d) v h = absurd (cc)
  exec-Spends (Entry.execute_pending_stx_transfer id memo) v h = absurd (cc)
  exec-Spends (Entry.execute_pending_sbtc_transfer id memo) v h = absurd (cc)
  exec-Spends (Entry.execute_pending_sbtc_withdrawal id) v h = absurd (cc)
  exec-Spends (Entry.propose_transfer_wallet to) v h = absurd (cc)
  exec-Spends Entry.confirm_recovery v h = absurd (cc)
  exec-Spends (Entry.recover_inactive_wallet to) v h = absurd (cc)
  exec-Spends (Entry.onboard key owner recovery a b d) v h = absurd (cc)
