-- ===== src/Simulation/Juice/Main.antt =====
-- The lifecycle scripts of the Juice safe: the whole plan, for each version of the wallet.
use pillar_wallets_xyz.Base.{◌++◌, Bytes, List, [], ◌∷◌}
use pillar_wallets_xyz.Base.Result.{Result, returned, ◌>>=◌}
use pillar_wallets_xyz.Clarity.Value.{uint, principal, some_value}
use pillar_wallets_xyz.Webauthn.Crypto.{Crypto}
use pillar_wallets_xyz.Webauthn.Signer.{SignerError}
use pillar_wallets_xyz.Simulation.Juice.Plan.{Version, Keys, Step, recovery}
use pillar_wallets_xyz.Simulation.Juice.Challenge.{sign_all}
use pillar_wallets_xyz.Simulation.Juice.Stake.{plan_stake}
use pillar_wallets_xyz.Simulation.Juice.Advance.{plan_advance}
use pillar_wallets_xyz.Simulation.Juice.Rewards.{plan_rewards}
use pillar_wallets_xyz.Simulation.Juice.Unstake.{plan_unstake}
use pillar_wallets_xyz.Simulation.Juice.WithdrawStx.{plan_withdraw_stx}
use pillar_wallets_xyz.Simulation.Juice.WithdrawSbtc.{plan_withdraw_sbtc}

unfoldable pub plan_of : Version → Keys → List Step
plan_of v k =
    plan_stake v k
    ++ (plan_advance v k
        ++ (plan_rewards v k
            ++ (plan_unstake v k ++ (plan_withdraw_stx v k ++ plan_withdraw_sbtc v k))))

unfoldable pub main : Crypto → Version → Bytes → Result SignerError (List Step)
main c v secret = do k ← sign_all c v.wallet secret; returned (plan_of v k)

abbrev pub v1 : Version
v1 = record {
  wallet = "SPV9K21TBFAK4KNRJXF5DFP8N7W46G4V9RCJDC22.juice-safe-v1";
  wallet_core = "SPV9K21TBFAK4KNRJXF5DFP8N7W46G4V9RCJDC22.fakfun-wallet-core";
  reward_cycle = 141;
  cycle_text = "u141";
  advance_blocks = 1360;
  verify_label = "set-verified-contract(juice-safe-v1)";
  advance_label = "advance 1360 burn blocks (cycle 140 -> 141)";
  recovery_arg = some_value (principal recovery);
  cooldown_args = [];
}

abbrev pub v2 : Version
v2 = record {
  wallet = "SPV9K21TBFAK4KNRJXF5DFP8N7W46G4V9RCJDC22.juice-safe-v2";
  wallet_core = "SPV9K21TBFAK4KNRJXF5DFP8N7W46G4V9RCJDC22.fakfun-wallet-core";
  reward_cycle = 141;
  cycle_text = "u141";
  advance_blocks = 1360;
  verify_label = "set-verified-contract(juice-safe-v2)";
  advance_label = "advance 1360 burn blocks (cycle 140 -> 141)";
  recovery_arg = some_value (principal recovery);
  cooldown_args = [];
}

abbrev pub v4 : Version
v4 = record {
  wallet = "SPV9K21TBFAK4KNRJXF5DFP8N7W46G4V9RCJDC22.juice-safe-v4";
  wallet_core = "SPV9K21TBFAK4KNRJXF5DFP8N7W46G4V9RCJDC22.fakfun-wallet-core";
  reward_cycle = 141;
  cycle_text = "u141";
  advance_blocks = 1360;
  verify_label = "set-verified-contract(juice-safe-v4)";
  advance_label = "advance 1360 burn blocks (cycle 140 -> 141)";
  recovery_arg = some_value (principal recovery);
  cooldown_args = [];
}

abbrev pub v6 : Version
v6 = record {
  wallet = "SPV9K21TBFAK4KNRJXF5DFP8N7W46G4V9RCJDC22.juice-safe-v6";
  wallet_core = "SPV9K21TBFAK4KNRJXF5DFP8N7W46G4V9RCJDC22.fakfun-wallet-core";
  reward_cycle = 141;
  cycle_text = "u141";
  advance_blocks = 1360;
  verify_label = "set-verified-contract(juice-safe-v6)";
  advance_label = "advance 1360 burn blocks (cycle 140 -> 141)";
  recovery_arg = principal recovery;
  cooldown_args = uint 144 ∷ [];
}

abbrev pub v7 : Version
v7 = record {
  wallet = "SPV9K21TBFAK4KNRJXF5DFP8N7W46G4V9RCJDC22.juice-safe-v7";
  wallet_core = "SPV9K21TBFAK4KNRJXF5DFP8N7W46G4V9RCJDC22.fakfun-wallet-core-v2";
  reward_cycle = 142;
  cycle_text = "u142";
  advance_blocks = 1900;
  verify_label = "set-verified-contract(juice-safe-v7)";
  advance_label = "advance 1900 burn blocks (cycle 140 -> 141)";
  recovery_arg = principal recovery;
  cooldown_args = uint 144 ∷ [];
}
