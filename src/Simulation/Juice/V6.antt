-- ===== src/Simulation/Juice/V6.antt =====
-- simul-juice-safe-v6-lifecycle.js, whose code is that of the others at version 6 of the wallet.
use pillar_wallets_xyz.Base.{Bytes, List}
use pillar_wallets_xyz.Base.Result.{Result}
use pillar_wallets_xyz.Clarity.Value.{Value}
use pillar_wallets_xyz.Webauthn.Crypto.{Crypto}
use pillar_wallets_xyz.Webauthn.Signer.{SignerError}
use pillar_wallets_xyz.Simulation.Juice.Plan.{Keys, Step}
use pillar_wallets_xyz.Simulation.Juice.Challenge
use pillar_wallets_xyz.Simulation.Juice.Stake
use pillar_wallets_xyz.Simulation.Juice.Advance
use pillar_wallets_xyz.Simulation.Juice.Rewards
use pillar_wallets_xyz.Simulation.Juice.Unstake
use pillar_wallets_xyz.Simulation.Juice.WithdrawStx
use pillar_wallets_xyz.Simulation.Juice.WithdrawSbtc
use pillar_wallets_xyz.Simulation.Juice.Main
use pillar_wallets_xyz.Simulation.Juice.Main.{v6}

unfoldable pub build_challenge : Crypto → Value → Bytes
build_challenge c = Challenge.build_challenge c v6.wallet

unfoldable pub sign_all : Crypto → Bytes → Result SignerError Keys
sign_all c = Challenge.sign_all c v6.wallet

unfoldable pub plan_stake : Keys → List Step
plan_stake = Stake.plan_stake v6

unfoldable pub plan_advance : Keys → List Step
plan_advance = Advance.plan_advance v6

unfoldable pub plan_rewards : Keys → List Step
plan_rewards = Rewards.plan_rewards v6

unfoldable pub plan_unstake : Keys → List Step
plan_unstake = Unstake.plan_unstake v6

unfoldable pub plan_withdraw_stx : Keys → List Step
plan_withdraw_stx = WithdrawStx.plan_withdraw_stx v6

unfoldable pub plan_withdraw_sbtc : Keys → List Step
plan_withdraw_sbtc = WithdrawSbtc.plan_withdraw_sbtc v6

unfoldable pub main : Crypto → Bytes → Result SignerError (List Step)
main c = Main.main c v6
