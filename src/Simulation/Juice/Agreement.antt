-- ===== src/Simulation/Juice/Agreement.antt =====
-- The challenges of the lifecycle scripts are the hashes that the Juice safe rebuilds.
use pillar_wallets_xyz.Base.{ℕ, ◌≡◌, String, ap₂, ◌++◌}
use pillar_wallets_xyz.Clarity.Value.{Fields, uint, ascii, tuple, field}
use pillar_wallets_xyz.Sip018.{sip018_prefix, wallet_domain_hash}
use pillar_wallets_xyz.Webauthn.Crypto.{Crypto, IsLawful}
use pillar_wallets_xyz.Safe.Hashes.{
  get_domain_hash, message_hash, build_stake_stx_juice_pox5_hash, build_update_stake_stx_juice_hash,
  build_unstake_stx_juice_hash, build_execute_now_hash,
}
use pillar_wallets_xyz.Simulation.Agreement.{cv_sha256-same}
use pillar_wallets_xyz.Simulation.Juice.Challenge.{
  build_challenge, t_stake, t_update_stake, t_unstake, t_execute_now,
}

module _ (c : Crypto) (lawful : IsLawful c) (wallet : String) where
  build_challenge-message_hash :
      (topic : String) (auth_id : ℕ) (details : Fields)
      → build_challenge c wallet
          (tuple (field "topic" (ascii topic) (field "auth-id" (uint auth_id) details)))
        ≡ message_hash c 1 wallet topic auth_id details
  unfolding build_challenge message_hash wallet_domain_hash get_domain_hash
  build_challenge-message_hash topic auth_id details =
      ap₂ (λ d m. c.sha256 (sip018_prefix ++ (d ++ m))) (cv_sha256-same c lawful _)
        (cv_sha256-same c lawful _)

  -- For lawful cryptography and every wallet, the challenges that the lifecycle scripts compute
  -- for a stake, an update, an unstake and an execution are the hashes that the helper contracts
  -- build on chain 1.
  pub build_challenge-build_hashes :
      (auth_id amount cycles op_id : ℕ)
      → (build_challenge c wallet (t_stake auth_id amount)
          ≡ build_stake_stx_juice_pox5_hash c 1 wallet amount auth_id)
        × (build_challenge c wallet (t_update_stake auth_id amount cycles)
            ≡ build_update_stake_stx_juice_hash c 1 wallet amount cycles auth_id)
        × (build_challenge c wallet (t_unstake auth_id)
            ≡ build_unstake_stx_juice_hash c 1 wallet auth_id)
        × (build_challenge c wallet (t_execute_now auth_id op_id)
            ≡ build_execute_now_hash c 1 wallet op_id auth_id)
  unfolding t_stake t_update_stake t_unstake t_execute_now build_stake_stx_juice_pox5_hash
      build_update_stake_stx_juice_hash build_unstake_stx_juice_hash build_execute_now_hash
  build_challenge-build_hashes auth_id amount cycles op_id = (
    build_challenge-message_hash _ auth_id _,
    build_challenge-message_hash _ auth_id _,
    build_challenge-message_hash _ auth_id _,
    build_challenge-message_hash _ auth_id _,
  )
