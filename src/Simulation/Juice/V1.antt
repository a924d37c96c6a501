-- ===== src/Simulation/Juice/V1.antt =====
-- simul-juice-safe-v1-lifecycle.js, whose code is that of the others at version 1 of the wallet.
use pillar_wallets_xyz.Base.{Bytes, List}
use pillar_wallets_xyz.Base.Result.{Result}
use pillar_wallets_xyz.Clarity.Value.{Value}
use pillar_wallets_xyz.Webauthn.Crypto.{Crypto}
use pillar_wallets_xyz.Webauthn.Signer.{SignerError}
use pillar_wallets_xyz.Simulation.Juice.Plan.{Keys, Step}
use pillar_wallets_xyz.Simulation.Juice.Challenge
use pillar_wallets_xyz.Simulation.Juice.Stake
use pillar_wallets_xyz.Simulation.Juice.Advance
use pillar_wallets_xyz.Simulation.Juice.Rewards
use pillar_wallets_xyz.Simulation.Juice.Unstake
use pillar_wallets_xyz.Simulation.Juice.WithdrawStx
use pillar_wallets_xyz.Simulation.Juice.WithdrawSbtc
use pillar_wallets_xyz.Simulation.Juice.Main
use pillar_wallets_xyz.Simulation.Juice.Main.{v1}

unfoldable pub build_challenge : Crypto → Value → Bytes
build_challenge c = Challenge.build_challenge c v1.wallet

unfoldable pub sign_all : Crypto → Bytes → Result SignerError Keys
sign_all c = Challenge.sign_all c v1.wallet

unfoldable pub plan_stake : Keys → List Step
plan_stake = Stake.plan_stake v1

unfoldable pub plan_advance : Keys → List Step
plan_advance = Advance.plan_advance v1

unfoldable pub plan_rewards : Keys → List Step
plan_rewards = Rewards.plan_rewards v1

unfoldable pub plan_unstake : Keys → List Step
plan_unstake = Unstake.plan_unstake v1

unfoldable pub plan_withdraw_stx : Keys → List Step
plan_withdraw_stx = WithdrawStx.plan_withdraw_stx v1

unfoldable pub plan_withdraw_sbtc : Keys → List Step
plan_withdraw_sbtc = WithdrawSbtc.plan_withdraw_sbtc v1

unfoldable pub main : Crypto → Bytes → Result SignerError (List Step)
main c = Main.main c v1
