-- ===== src/Safe/Ownership.antt =====
-- Who holds the wallet in juice-safe-v7.clar: the transfer in two steps, the recovery address and
-- the recovery of an inactive wallet, and the onboarding.
use pillar_wallets_xyz.Base.{
  ℕ, String, Bool, true, false, not, Option, none, some, Bytes, leb, ltb, insert, delete, ◌==◌,
  string_eq, bytes_eq,
}
use pillar_wallets_xyz.Clarity.Outcome.{ok, add_uint}
use pillar_wallets_xyz.Clarity.Contract.{lift, require, ◌>>=◌, ◌>>◌}
use pillar_wallets_xyz.Safe.State.{Safe, nobody}
use pillar_wallets_xyz.Safe.State.Code
use pillar_wallets_xyz.Safe.Hashes.{build_confirm_transfer_hash, build_propose_recovery_hash}
use pillar_wallets_xyz.Safe.External.{
  Setting, Call, read, update, outside, log_propose_transfer_wallet, log_wallet_transferred,
  log_propose_recovery, log_confirm_recovery, log_recover_inactive_wallet, log_admin_added,
  log_wallet_config_set, log_wallet_initialized, register_wallet,
}
use pillar_wallets_xyz.Safe.Signature.{SigAuth, is_authorized, is_admin_calling}
use pillar_wallets_xyz.Safe.Spending.{pay_gas_if}
use pillar_wallets_xyz.Safe.Operations.{update_activity, by_passkey}
use pillar_wallets_xyz.Safe.Config.{set_config}

abbrev pub set_pending_transfer : String → Safe → Safe
set_pending_transfer admin s = record s { pending_transfer = admin }

abbrev pub set_pending_recovery : String → Safe → Safe
set_pending_recovery recovery s = record s { pending_recovery = recovery }

abbrev pub set_recovery : String → Safe → Safe
set_recovery recovery s = record s { recovery_address = recovery }

abbrev pub set_owner : String → Safe → Safe
set_owner owner s = record s { owner = owner }

abbrev pub add_admin : String → Safe → Safe
add_admin admin s = record s { admins = insert admin true s.admins }

abbrev pub drop_admin : String → Safe → Safe
drop_admin admin s = record s { admins = delete admin s.admins }

abbrev pub register_pubkey : Bytes → String → Safe → Safe
register_pubkey pubkey admin s = record s {
  pubkey_to_admin = insert pubkey admin s.pubkey_to_admin;
}

abbrev pub set_initialized : Safe → Safe
set_initialized s = record s { pubkey_initialized = true }

module _ (x : Setting) where
  unfoldable pub propose_transfer_wallet : String → Call x (Unit {0})
  propose_transfer_wallet new_admin = do
    is_admin_calling x x.env.tx_sender
    require (not (new_admin == x.env.tx_sender)) Code.forbidden
    update x (set_pending_transfer new_admin)
    update_activity x
    outside x (x.ext.core (log_propose_transfer_wallet new_admin))

  -- `(map-set admins pending true)`, then `(map-delete admins (var-get owner))`, in this order.
  unfoldable pub hand_over : String → Call x (Unit {0})
  hand_over pending = do
    update x (add_admin pending)
    owner ← read x (λ s. s.owner)
    update x (drop_admin owner)
    update x (set_owner pending)
    update x (set_pending_transfer nobody)

  unfoldable pub confirm_transfer_wallet : SigAuth → Option String → Call x (Unit {0})
  confirm_transfer_wallet sig gas = do
    pending ← read x (λ s. s.pending_transfer)
    require (not (pending == nobody)) Code.no_pending_transfer
    is_authorized x (
        some (
          build_confirm_transfer_hash x.crypto x.env.chain_id x.env.current_contract pending
              sig.auth_id,
          sig,
        ))
    pay_gas_if x gas false
    outside x (x.ext.mint_ect 1 x.env.current_contract)
    outside x (x.ext.burn_ect 1 x.env.current_contract)
    require (not (pending == x.env.current_contract)) Code.unauthorised
    hand_over pending
    update_activity x
    outside x (x.ext.core (log_wallet_transferred pending))

  unfoldable pub propose_recovery : String → SigAuth → Option String → Call x (Unit {0})
  propose_recovery new_recovery sig gas = do
    by_passkey x
        (build_propose_recovery_hash x.crypto x.env.chain_id x.env.current_contract new_recovery)
        sig gas
    require (not (new_recovery == x.env.current_contract)) Code.unauthorised
    update x (set_pending_recovery new_recovery)
    update_activity x
    outside x (x.ext.core (log_propose_recovery new_recovery))

  unfoldable pub confirm_recovery : Call x (Unit {0})
  confirm_recovery = do
    pending ← read x (λ s. s.pending_recovery)
    require (not (pending == nobody)) Code.no_pending_recovery
    is_admin_calling x x.env.tx_sender
    update x (set_recovery pending)
    update x (set_pending_recovery nobody)
    update_activity x
    outside x (x.ext.core (log_confirm_recovery pending))

  unfoldable pub is_inactive : Call x Bool
  is_inactive = do
    last ← read x (λ s. s.last_activity_block)
    ends ← lift (add_uint Code.inactivity_period last)
    lift (ok (ltb ends x.env.burn_block_height))

  unfoldable pub recover_inactive_wallet : String → Call x (Unit {0})
  recover_inactive_wallet new_admin = do
    inactive ← is_inactive
    require inactive Code.inactive_required
    recovery ← read x (λ s. s.recovery_address)
    require (x.env.tx_sender == recovery) Code.unauthorised
    owner ← read x (λ s. s.owner)
    update x (drop_admin owner)
    require (not (new_admin == x.env.current_contract)) Code.unauthorised
    update x (add_admin new_admin)
    update x (set_owner new_admin)
    update_activity x
    outside x (x.ext.core (log_recover_inactive_wallet new_admin x.env.tx_sender))

  -- The five calls of the core contract at the end of `onboard`.
  unfoldable pub announce : Bytes → String → String → ℕ → ℕ → ℕ → Call x (Unit {0})
  announce pubkey new_owner recovery stx_threshold sbtc_threshold cooldown_period = do
    outside x
        (x.ext.core (register_wallet "SPV9K21TBFAK4KNRJXF5DFP8N7W46G4V9RCJDC22.juice-safe-v7"))
    outside x (x.ext.core (log_admin_added new_owner))
    outside x (x.ext.core (log_confirm_recovery recovery))
    outside x (x.ext.core (log_wallet_config_set stx_threshold sbtc_threshold 0 cooldown_period))
    outside x (x.ext.core (log_wallet_initialized pubkey))

  unfoldable pub onboard : Bytes → String → String → ℕ → ℕ → ℕ → Call x (Unit {0})
  onboard pubkey new_owner recovery stx_threshold sbtc_threshold cooldown_period = do
    require (x.env.tx_sender == Code.fakfun_deployer) Code.unauthorised
    initialized ← read x (λ s. s.pubkey_initialized)
    require (not initialized) Code.unauthorised
    update x (register_pubkey pubkey new_owner)
    update x (drop_admin nobody)
    require (not (new_owner == x.env.current_contract)) Code.unauthorised
    update x (add_admin new_owner)
    update x (set_owner new_owner)
    require (not (recovery == x.env.current_contract)) Code.unauthorised
    require (not (recovery == new_owner)) Code.unauthorised
    require (leb Code.min_cooldown cooldown_period) Code.cooldown_too_short
    require (leb cooldown_period Code.max_config_cooldown) Code.cooldown_too_long
    update x (set_recovery recovery)
    update x (
        set_config (record {
          stx_threshold = stx_threshold;
          sbtc_threshold = sbtc_threshold;
          cooldown_period = cooldown_period;
          config_signaled_at = none;
        }))
    update x set_initialized
    update_activity x
    announce pubkey new_owner recovery stx_threshold sbtc_threshold cooldown_period
