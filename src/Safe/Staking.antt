-- ===== src/Safe/Staking.antt =====
-- The staking of juice-safe-v7.clar with the Juice pool on pox-5.
use pillar_wallets_xyz.Base.{ℕ, String, ◌||◌, Option, none, some, ltb}
use pillar_wallets_xyz.Clarity.Outcome.{add_uint}
use pillar_wallets_xyz.Clarity.Contract.{lift, require, ◌>>=◌, ◌>>◌}
use pillar_wallets_xyz.Safe.State.Code
use pillar_wallets_xyz.Safe.Hashes.{
  build_stake_stx_juice_pox5_hash, build_update_stake_stx_juice_hash, build_unstake_stx_juice_hash,
}
use pillar_wallets_xyz.Safe.External.{
  Setting, Call, read_world, outside, log_stake_stx, log_revoke_fast_pool, stake, stake_update,
  PoxCall,
}
use pillar_wallets_xyz.Safe.Signature.{SigAuth}
use pillar_wallets_xyz.Safe.Operations.{update_activity, unlocked_passkey_or_admin}

module _ (x : Setting) where
  unfoldable pub stake_stx_juice : ℕ → Option SigAuth → Option String → Call x (Unit {0})
  stake_stx_juice amount_ustx sig_auth gas = do
    update_activity x
    unlocked_passkey_or_admin x
        (build_stake_stx_juice_pox5_hash x.crypto x.env.chain_id x.env.current_contract amount_ustx)
        sig_auth gas
    require (ltb 0 amount_ustx) Code.zero_amount
    outside x (x.ext.core (log_stake_stx amount_ustx))
    outside x (
        x.ext.pox (some amount_ustx)
          (stake Code.juice_signer amount_ustx Code.num_cycles x.env.burn_block_height))

  unfoldable pub update_stake_stx_juice : ℕ → ℕ → Option SigAuth → Option String → Call x (Unit {0})
  update_stake_stx_juice amount_increase cycles_to_extend sig_auth gas = do
    update_activity x
    unlocked_passkey_or_admin x
        (build_update_stake_stx_juice_hash x.crypto x.env.chain_id x.env.current_contract
          amount_increase cycles_to_extend)
        sig_auth gas
    require (ltb 0 amount_increase || ltb 0 cycles_to_extend) Code.zero_amount
    outside x (x.ext.core (log_stake_stx amount_increase))
    locked ← read_world x x.ext.locked_ustx
    allowance ← lift (add_uint locked amount_increase)
    outside x (
        x.ext.pox (some allowance)
          (stake_update Code.juice_signer Code.juice_signer cycles_to_extend amount_increase))

  unfoldable pub unstake : Option SigAuth → Option String → Call x (Unit {0})
  unstake sig_auth gas = do
    update_activity x
    unlocked_passkey_or_admin x
        (build_unstake_stx_juice_hash x.crypto x.env.chain_id x.env.current_contract) sig_auth gas
    outside x (x.ext.core log_revoke_fast_pool)
    outside x (x.ext.pox none (PoxCall.unstake Code.juice_signer))
