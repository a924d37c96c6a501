-- ===== src/Safe/Frame/Entries.antt =====
-- The entry points of juice-safe-v7.clar that keep every relation which their group of updates
-- keeps.
use pillar_wallets_xyz.Base.{ℕ, String, Bool, true, false, Option, Bytes}
use pillar_wallets_xyz.Clarity.Contract.Keeps.{Change, Keeps}
use pillar_wallets_xyz.Safe.State.{Safe, Config, PendingConfig, PendingGas}
use pillar_wallets_xyz.Safe.Hashes.{BtcRecipient}
use pillar_wallets_xyz.Safe.External.{Setting, Call, update}
use pillar_wallets_xyz.Safe.Signature.{SigAuth}
use pillar_wallets_xyz.Safe.Spending.{add_spent_stx, add_spent_sbtc}
use pillar_wallets_xyz.Safe.Operations.{create_pending_operation}
use pillar_wallets_xyz.Safe.Transfers.{
  queue, stx_transfer_now, stx_transfer, exceeds_if_sbtc, spend_if_sbtc, sip010_transfer_now,
  sip010_transfer, withdraw_now, sbtc_initiate_withdrawal, sip009_transfer,
}
use pillar_wallets_xyz.Safe.Config.{
  set_pending_gas, set_max_gas, set_lock, set_pending_config, set_config, signal_config,
  propose_max_gas_amount, delay_passed, confirm_max_gas_amount, may_toggle, toggle_token_lock,
  signal_config_change, set_wallet_config,
}
use pillar_wallets_xyz.Safe.Ownership.{
  set_pending_transfer, set_pending_recovery, set_recovery, set_owner, add_admin, drop_admin,
  register_pubkey, set_initialized, propose_transfer_wallet, hand_over, confirm_transfer_wallet,
  propose_recovery, confirm_recovery, is_inactive, recover_inactive_wallet, announce, onboard,
}
use pillar_wallets_xyz.Safe.Staking.{stake_stx_juice, update_stake_stx_juice, unstake}
use pillar_wallets_xyz.Safe.Frame.{on_chain, AllowsCalls, frame_rules}

module _ (x : Setting) (R : Change Safe) where
  abbrev Allows : {A : Type 0} → Call x A → Type 0
  Allows m = Keeps (on_chain x R) m

  pub record AllowsSettings : Type 0 where
    pub pending_gas : (p : PendingGas) → Allows (update x (set_pending_gas p))
    pub max_gas : (n : ℕ) → Allows (update x (set_max_gas n))

  pub record AllowsConfig : Type 0 where
    pub pending : (p : PendingConfig) → Allows (update x (set_pending_config p))
    pub config : (c : Config) → Allows (update x (set_config c))
    pub signal : (c : Config) (n : ℕ) → Allows (update x (signal_config c n))

  pub record AllowsOwners : Type 0 where
    pub pending_transfer : (p : String) → Allows (update x (set_pending_transfer p))
    pub pending_recovery : (p : String) → Allows (update x (set_pending_recovery p))
    pub recovery : (p : String) → Allows (update x (set_recovery p))
    pub owner : (p : String) → Allows (update x (set_owner p))
    pub adds : (p : String) → Allows (update x (add_admin p))
    pub drops : (p : String) → Allows (update x (drop_admin p))
    pub registers : (key : Bytes) (p : String) → Allows (update x (register_pubkey key p))
    pub initialized : Allows (update x set_initialized)

  pub record AllowsSpending : Type 0 where
    pub stx : (n : ℕ) → Allows (add_spent_stx x n)
    pub sbtc : (n : ℕ) → Allows (add_spent_sbtc x n)

  pub record AllowsQueue : Type 0 where
    pub creates :
        (op_type : String) (n : ℕ) (to : String) (token extension : Option String)
        (payload : Option Bytes) (by_key : Bool)
        → Allows (create_pending_operation x op_type n to token extension payload by_key)

module _ (x : Setting) (R : Change Safe) (calls : AllowsCalls x R) where
  pub sip009_transfer-Keeps :
      (n : ℕ) (to token name : String) (sig : Option SigAuth) (gas : Option String)
      → Keeps (on_chain x R) (sip009_transfer x n to token name sig gas)
  unfolding sip009_transfer
  sip009_transfer-Keeps n to token name sig gas = search (frame_rules) depth 40

  pub stake_stx_juice-Keeps :
      (n : ℕ) (sig : Option SigAuth) (gas : Option String)
      → Keeps (on_chain x R) (stake_stx_juice x n sig gas)
  unfolding stake_stx_juice
  stake_stx_juice-Keeps n sig gas = search (frame_rules) depth 40

  pub update_stake_stx_juice-Keeps :
      (n cycles : ℕ) (sig : Option SigAuth) (gas : Option String)
      → Keeps (on_chain x R) (update_stake_stx_juice x n cycles sig gas)
  unfolding update_stake_stx_juice
  update_stake_stx_juice-Keeps n cycles sig gas = search (frame_rules) depth 40

  pub unstake-Keeps :
      (sig : Option SigAuth) (gas : Option String) → Keeps (on_chain x R) (unstake x sig gas)
  unfolding unstake
  unstake-Keeps sig gas = search (frame_rules) depth 40

  pub delay_passed-Keeps :
      (since effective : ℕ) → Keeps (on_chain x R) (delay_passed x since effective)
  unfolding delay_passed
  delay_passed-Keeps since effective = search (frame_rules) depth 40

  pub may_toggle-Keeps :
      (b : Bool) (sig : Option SigAuth) (gas : Option String)
      → Keeps (on_chain x R) (may_toggle x b sig gas)
  unfolding may_toggle
  may_toggle-Keeps true sig gas = search (frame_rules) depth 40
  may_toggle-Keeps false sig gas = search (frame_rules) depth 40

  pub toggle_token_lock-Keeps :
      ((b : Bool) → Keeps (on_chain x R) (update x (set_lock b)))
      → (b : Bool) (sig : Option SigAuth) (gas : Option String)
      → Keeps (on_chain x R) (toggle_token_lock x b sig gas)
  unfolding toggle_token_lock
  toggle_token_lock-Keeps locks b sig gas = search (frame_rules, may_toggle-Keeps, locks) depth 40

  module _ (settings : AllowsSettings x R) where
    pub propose_max_gas_amount-Keeps : (n : ℕ) → Keeps (on_chain x R) (propose_max_gas_amount x n)
    unfolding propose_max_gas_amount
    propose_max_gas_amount-Keeps n = search (frame_rules, settings.pending_gas) depth 40

    pub confirm_max_gas_amount-Keeps :
        (sig : SigAuth) (gas : Option String)
        → Keeps (on_chain x R) (confirm_max_gas_amount x sig gas)
    unfolding confirm_max_gas_amount
    confirm_max_gas_amount-Keeps sig gas =
        search (frame_rules, delay_passed-Keeps, settings.pending_gas, settings.max_gas) depth 40

  module _ (settings : AllowsConfig x R) where
    pub signal_config_change-Keeps :
        (stx sbtc cooldown : ℕ) → Keeps (on_chain x R) (signal_config_change x stx sbtc cooldown)
    unfolding signal_config_change
    signal_config_change-Keeps stx sbtc cooldown =
        search (frame_rules, settings.pending, settings.signal) depth 40

    pub set_wallet_config-Keeps :
        (sig : SigAuth) (gas : Option String) → Keeps (on_chain x R) (set_wallet_config x sig gas)
    unfolding set_wallet_config
    set_wallet_config-Keeps sig gas =
        search (frame_rules, delay_passed-Keeps, settings.pending, settings.config) depth 40

  pub announce-Keeps :
      (key : Bytes) (owner recovery : String) (stx sbtc cooldown : ℕ)
      → Keeps (on_chain x R) (announce x key owner recovery stx sbtc cooldown)
  unfolding announce
  announce-Keeps key owner recovery stx sbtc cooldown = search (frame_rules) depth 40

  module _ (owners : AllowsOwners x R) (settings : AllowsConfig x R) where
    pub initialized-Keeps : Keeps (on_chain x R) (update x set_initialized)
    initialized-Keeps = owners.initialized

    pub onboard-Keeps :
        (key : Bytes) (owner recovery : String) (stx sbtc cooldown : ℕ)
        → Keeps (on_chain x R) (onboard x key owner recovery stx sbtc cooldown)
    unfolding onboard
    onboard-Keeps key owner recovery stx sbtc cooldown =
        search
          (
            frame_rules, announce-Keeps, owners.registers, owners.drops, owners.adds, owners.owner,
            owners.recovery, initialized-Keeps, settings.config,
          )
          depth 60

  module _ (owners : AllowsOwners x R) where
    pub propose_transfer_wallet-Keeps :
        (admin : String) → Keeps (on_chain x R) (propose_transfer_wallet x admin)
    unfolding propose_transfer_wallet
    propose_transfer_wallet-Keeps admin = search (frame_rules, owners.pending_transfer) depth 40

    pub hand_over-Keeps : (pending : String) → Keeps (on_chain x R) (hand_over x pending)
    unfolding hand_over
    hand_over-Keeps pending =
        search (frame_rules, owners.adds, owners.drops, owners.owner, owners.pending_transfer) depth
          40

    pub confirm_transfer_wallet-Keeps :
        (sig : SigAuth) (gas : Option String)
        → Keeps (on_chain x R) (confirm_transfer_wallet x sig gas)
    unfolding confirm_transfer_wallet
    confirm_transfer_wallet-Keeps sig gas = search (frame_rules, hand_over-Keeps) depth 40

    pub propose_recovery-Keeps :
        (recovery : String) (sig : SigAuth) (gas : Option String)
        → Keeps (on_chain x R) (propose_recovery x recovery sig gas)
    unfolding propose_recovery
    propose_recovery-Keeps recovery sig gas = search (frame_rules, owners.pending_recovery) depth 40

    pub confirm_recovery-Keeps : Keeps (on_chain x R) (confirm_recovery x)
    unfolding confirm_recovery
    confirm_recovery-Keeps = search (frame_rules, owners.recovery, owners.pending_recovery) depth 40

    pub recover_inactive_wallet-Keeps :
        (admin : String) → Keeps (on_chain x R) (recover_inactive_wallet x admin)
    unfolding recover_inactive_wallet is_inactive
    recover_inactive_wallet-Keeps admin =
        search (frame_rules, owners.adds, owners.drops, owners.owner) depth 40

  module _ (spending : AllowsSpending x R) (queue_allowed : AllowsQueue x R) where
    pub queue-Keeps :
        (op_type : String) (n : ℕ) (to : String) (token : Option String) (payload : Option Bytes)
        (by_key : Bool)
        → Keeps (on_chain x R) (queue x op_type n to token payload by_key)
    unfolding queue
    queue-Keeps op_type n to token payload by_key =
        search (frame_rules, queue_allowed.creates) depth 40

    pub stx_transfer-Keeps :
        (n : ℕ) (to : String) (memo : Option Bytes) (sig : Option SigAuth) (gas : Option String)
        → Keeps (on_chain x R) (stx_transfer x n to memo sig gas)
    unfolding stx_transfer stx_transfer_now
    stx_transfer-Keeps n to memo sig gas = search (frame_rules, queue-Keeps, spending.stx) depth 40

    pub sip010_transfer-Keeps :
        (n : ℕ) (to : String) (memo : Option Bytes) (token name : String) (sig : Option SigAuth)
        (gas : Option String)
        → Keeps (on_chain x R) (sip010_transfer x n to memo token name sig gas)
    unfolding sip010_transfer sip010_transfer_now exceeds_if_sbtc spend_if_sbtc
    sip010_transfer-Keeps n to memo token name sig gas =
        search (frame_rules, queue-Keeps, spending.sbtc) depth 40

    pub sbtc_initiate_withdrawal-Keeps :
        (n : ℕ) (to : BtcRecipient) (fee : ℕ) (sig : Option SigAuth) (gas : Option String)
        → Keeps (on_chain x R) (sbtc_initiate_withdrawal x n to fee sig gas)
    unfolding sbtc_initiate_withdrawal withdraw_now
    sbtc_initiate_withdrawal-Keeps n to fee sig gas =
        search (frame_rules, queue-Keeps, spending.sbtc) depth 40
