-- ===== src/Simulation/Agreement.antt =====
-- The challenges that the simulations have signed are the hashes that game-wager-v2.clar rebuilds.
use pillar_wallets_xyz.Base.{ℕ, ◌≡◌, String, Bytes, ap, ap₂, ◌++◌}
use pillar_wallets_xyz.Clarity.Value.{Value}
use pillar_wallets_xyz.Encoding.Hex.{hex_buffer}
use pillar_wallets_xyz.Sip018.{sip018_prefix, cv_sha256}
use pillar_wallets_xyz.Webauthn.Crypto.{Crypto, IsLawful}
use pillar_wallets_xyz.Wager.Hashes.{
  get_domain_hash, message_hash, build_register_wallet_hash, build_wager_hash, build_withdraw_hash,
}
use pillar_wallets_xyz.Simulation.Common.{
  challenge, game_wager_v2_domain_hash, spec_register_wallet, spec_wager, spec_withdraw, wager,
}

module _ (c : Crypto) (lawful : IsLawful c) where
  pub cv_sha256-same : (v : Value) → cv_sha256 c v ≡ c.sha256 (c.to_consensus_buff v)
  unfolding cv_sha256
  cv_sha256-same v = ap c.sha256 (lawful.same_serialisation v)

  challenge-message_hash : (v : Value) → challenge c v ≡ message_hash c 1 wager v
  unfolding challenge message_hash game_wager_v2_domain_hash get_domain_hash
  challenge-message_hash v =
      ap₂ (λ d m. c.sha256 (sip018_prefix ++ (d ++ m))) (cv_sha256-same _) (cv_sha256-same v)

  -- For lawful cryptography, the challenges that the scripts compute for a registration, a wager
  -- and a withdrawal are the hashes that the escrow rebuilds on chain 1 at the scripts' contract
  -- address.
  pub challenge-build_hashes :
      (auth_id amount : ℕ) (opponent_hex : Bytes) (token wallet recipient : String)
      → (challenge c (spec_register_wallet auth_id wallet)
          ≡ build_register_wallet_hash c 1 wager auth_id wallet)
        × (challenge c (spec_wager auth_id opponent_hex token amount)
            ≡ build_wager_hash c 1 wager auth_id (hex_buffer opponent_hex) token amount)
        × (challenge c (spec_withdraw auth_id amount recipient token)
            ≡ build_withdraw_hash c 1 wager auth_id amount recipient token)
  unfolding spec_register_wallet spec_wager spec_withdraw build_register_wallet_hash
      build_wager_hash build_withdraw_hash
  challenge-build_hashes auth_id amount opponent_hex token wallet recipient =
      (challenge-message_hash _, challenge-message_hash _, challenge-message_hash _)
