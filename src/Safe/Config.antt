-- ===== src/Safe/Config.antt =====
-- The settings of juice-safe-v7.clar: the gas limit, the token lock, and the spending limits with
-- their delay. A change is signalled by the admin and confirmed by the passkey after the delay.
use pillar_wallets_xyz.Base.{
  ℕ, Bool, true, false, not, Option, none, some, String, leb, ltb, ◌==◌, nat_eq, string_eq,
  if◌then◌else◌,
}
use pillar_wallets_xyz.Clarity.Outcome.{add_uint}
use pillar_wallets_xyz.Clarity.Contract.{lift, require, ◌>>=◌, ◌>>◌}
use pillar_wallets_xyz.Safe.State.{
  Safe, Config, PendingConfig, PendingGas, nobody, no_config, no_gas,
}
use pillar_wallets_xyz.Safe.State.Code
use pillar_wallets_xyz.Safe.Hashes.{
  build_confirm_max_gas_amount_hash, build_toggle_token_lock_hash, build_set_wallet_config_hash,
}
use pillar_wallets_xyz.Safe.External.{
  Setting, Call, read, update, outside, log_token_lock_toggled, log_signal_config_change,
  log_wallet_config_set,
}
use pillar_wallets_xyz.Safe.Signature.{SigAuth, is_authorized, is_admin_calling}
use pillar_wallets_xyz.Safe.Operations.{update_activity, by_passkey, passkey_or_admin}

abbrev pub set_pending_gas : PendingGas → Safe → Safe
set_pending_gas pending s = record s { pending_max_gas = pending }

abbrev pub set_max_gas : ℕ → Safe → Safe
set_max_gas amount s = record s { max_gas_amount = amount }

abbrev pub set_lock : Bool → Safe → Safe
set_lock enabled s = record s { token_lock_enabled = enabled }

abbrev pub set_pending_config : PendingConfig → Safe → Safe
set_pending_config pending s = record s { pending_config = pending }

abbrev pub set_config : Config → Safe → Safe
set_config config s = record s { wallet_config = config }

abbrev pub signal_config : Config → ℕ → Safe → Safe
signal_config config height s = record s {
  wallet_config = record config { config_signaled_at = some height };
}

-- `(if (> cooldown MAX-CONFIG-COOLDOWN) MAX-CONFIG-COOLDOWN cooldown)`
unfoldable pub effective_cooldown : ℕ → ℕ
effective_cooldown cooldown =
    if ltb Code.max_config_cooldown cooldown then Code.max_config_cooldown else cooldown

-- `(default-to u0 (get config-signaled-at config))`
unfoldable pub signaled_at : Config → ℕ
signaled_at config = elim config.config_signaled_at [ none ↦ 0 | some height ↦ height ]

module _ (x : Setting) where
  unfoldable pub propose_max_gas_amount : ℕ → Call x (Unit {0})
  propose_max_gas_amount amount = do
    is_admin_calling x x.env.tx_sender
    require (leb amount Code.max_gas_ceiling) Code.threshold_exceeded
    update x (set_pending_gas (record { amount = amount; proposed_at = x.env.burn_block_height }))
    update_activity x

  -- The two tests of a delayed change: it was signalled, and `effective` blocks have passed.
  unfoldable pub delay_passed : ℕ → ℕ → Call x (Unit {0})
  delay_passed since effective = do
    require (not (since == 0)) Code.not_signaled
    ends ← lift (add_uint since effective)
    require (leb ends x.env.burn_block_height) Code.in_cooldown

  unfoldable pub confirm_max_gas_amount : SigAuth → Option String → Call x (Unit {0})
  confirm_max_gas_amount sig gas = do
    pending ← read x (λ s. s.pending_max_gas)
    config ← read x (λ s. s.wallet_config)
    by_passkey x
        (build_confirm_max_gas_amount_hash x.crypto x.env.chain_id x.env.current_contract
          pending.amount)
        sig gas
    delay_passed pending.proposed_at (effective_cooldown config.cooldown_period)
    update x (set_max_gas pending.amount)
    update x (set_pending_gas no_gas)
    update_activity x

  unfoldable pub may_toggle : Bool → Option SigAuth → Option String → Call x (Unit {0})
  may_toggle true sig_auth gas =
      passkey_or_admin x
        (build_toggle_token_lock_hash x.crypto x.env.chain_id x.env.current_contract true) sig_auth
        gas
  may_toggle false sig_auth gas = is_admin_calling x x.env.tx_sender

  unfoldable pub toggle_token_lock : Bool → Option SigAuth → Option String → Call x (Unit {0})
  toggle_token_lock enabled sig_auth gas = do
    owner ← read x (λ s. s.owner)
    require (not (owner == nobody)) Code.unauthorised
    may_toggle enabled sig_auth gas
    update x (set_lock enabled)
    update_activity x
    outside x (x.ext.core (log_token_lock_toggled enabled))

  unfoldable pub signal_config_change : ℕ → ℕ → ℕ → Call x (Unit {0})
  signal_config_change new_stx_threshold new_sbtc_threshold new_cooldown_period = do
    config ← read x (λ s. s.wallet_config)
    is_authorized x none
    require (leb Code.min_cooldown new_cooldown_period) Code.cooldown_too_short
    require (leb new_cooldown_period Code.max_config_cooldown) Code.cooldown_too_long
    update x (
        set_pending_config (record {
          stx_threshold = new_stx_threshold;
          sbtc_threshold = new_sbtc_threshold;
          cooldown_period = new_cooldown_period;
        }))
    update x (signal_config config x.env.burn_block_height)
    update_activity x
    outside x (x.ext.core log_signal_config_change)

  unfoldable pub set_wallet_config : SigAuth → Option String → Call x (Unit {0})
  set_wallet_config sig gas = do
    config ← read x (λ s. s.wallet_config)
    pending ← read x (λ s. s.pending_config)
    by_passkey x
        (build_set_wallet_config_hash x.crypto x.env.chain_id x.env.current_contract
          pending.stx_threshold pending.sbtc_threshold pending.cooldown_period)
        sig gas
    delay_passed (signaled_at config) (effective_cooldown config.cooldown_period)
    update x (
        set_config (record {
          stx_threshold = pending.stx_threshold;
          sbtc_threshold = pending.sbtc_threshold;
          cooldown_period = pending.cooldown_period;
          config_signaled_at = none;
        }))
    update x (set_pending_config no_config)
    update_activity x
    outside x (
        x.ext.core (
          log_wallet_config_set pending.stx_threshold pending.sbtc_threshold 0
            pending.cooldown_period))
