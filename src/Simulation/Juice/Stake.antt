-- ===== src/Simulation/Juice/Stake.antt =====
-- The lifecycle scripts of the Juice safe: contracts, onboarding, first stake and top-ups.
use pillar_wallets_xyz.Base.{List, [], ◌∷◌, ◌++◌, codes}
use pillar_wallets_xyz.Clarity.Value.{uint, buffer, principal, none_value, some_value}
use pillar_wallets_xyz.Encoding.Hex.{hex_buffer}
use pillar_wallets_xyz.Simulation.Juice.Challenge.{sig_auth_tuple}
use pillar_wallets_xyz.Simulation.Juice.Plan.{
  Version, Keys, Step, tx, eval, fund, okre, exactly, deployer, fakfun_deployer, owner, random,
  relayer, stx_whale, pox5, sbtc_token, sbtc_whale, gas_station, sbtc_fund, gas_topup_ustx,
  fund_ustx, stake_ustx, topup_ustx, stx_threshold, sbtc_threshold,
}

unfoldable pub plan_stake : Version → Keys → List Step
plan_stake v k =
    tx v.verify_label deployer v.wallet_core "set-verified-contract"
      (principal v.wallet ∷ none_value ∷ []) okre
    ∷ fund "fund safe 2800 STX (whale)" stx_whale v.wallet fund_ustx
    ∷ tx "onboard(pubkey, OWNER, some(RECOVERY), thresholds)" fakfun_deployer v.wallet "onboard"
        (buffer (hex_buffer k.pub_key_hex)
          ∷ principal owner
          ∷ v.recovery_arg
          ∷ uint stx_threshold
          ∷ uint sbtc_threshold
          ∷ v.cooldown_args)
        okre
    ∷ eval "owner == OWNER" (codes "(get-owner)") (codes "owner0") v.wallet
    ∷ eval "safe stx-account BEFORE stake" (codes "(stx-account '" ++ (codes v.wallet ++ codes ")"))
        (codes "acct0") v.wallet
    ∷ tx "B1 stake by random -> u4001" random v.wallet "stake-stx-juice"
        (uint stake_ustx ∷ none_value ∷ none_value ∷ []) (exactly "(err u4001)")
    ∷ tx "B2 stake amount u0 (admin) -> u4026" owner v.wallet "stake-stx-juice"
        (uint 0 ∷ none_value ∷ none_value ∷ []) (exactly "(err u4026)")
    ∷ tx "B3 stake (PASSKEY rp=juiceofbtc.com) -> ok" relayer v.wallet "stake-stx-juice"
        (uint stake_ustx ∷ some_value (sig_auth_tuple 1 k.pub_key_hex k.stake) ∷ none_value ∷ [])
        okre
    ∷ eval "safe stx-account AFTER stake (expect locked>0)"
        (codes "(stx-account '" ++ (codes v.wallet ++ codes ")")) (codes "acct1") v.wallet
    ∷ eval "pox-5 staker-info AFTER stake"
        (codes "(contract-call? '"
          ++ (codes pox5 ++ (codes " get-staker-info '" ++ (codes v.wallet ++ codes ")"))))
        (codes "info1") v.wallet
    ∷ tx "C1 update top-up (admin) -> ok" owner v.wallet "update-stake-stx-juice"
        (uint topup_ustx ∷ uint 0 ∷ none_value ∷ none_value ∷ []) okre
    ∷ eval "safe stx-account AFTER top-up" (codes "(stx-account '" ++ (codes v.wallet ++ codes ")"))
        (codes "acct2") v.wallet
    ∷ tx "fund 5000 sats sBTC (for gas)" sbtc_whale sbtc_token "transfer"
        (uint sbtc_fund ∷ principal sbtc_whale ∷ principal v.wallet ∷ none_value ∷ []) okre
    ∷ eval "G sBTC BEFORE gas-paid call"
        (codes "(contract-call? '"
          ++ (codes sbtc_token ++ (codes " get-balance '" ++ (codes v.wallet ++ codes ")"))))
        (codes "gsb0") v.wallet
    ∷ tx "G top-up via PASSKEY + GAS STATION (safe pays 20 sats) -> ok" relayer v.wallet
        "update-stake-stx-juice"
        (uint gas_topup_ustx
          ∷ uint 0
          ∷ some_value (sig_auth_tuple 7 k.pub_key_hex k.gas_topup)
          ∷ some_value (principal gas_station)
          ∷ [])
        okre
    ∷ eval "G sBTC AFTER gas-paid call"
        (codes "(contract-call? '"
          ++ (codes sbtc_token ++ (codes " get-balance '" ++ (codes v.wallet ++ codes ")"))))
        (codes "gsb1") v.wallet
    ∷ tx "C2 update with amount u0 AND cycles u0 -> u4026" owner v.wallet "update-stake-stx-juice"
        (uint 0 ∷ uint 0 ∷ none_value ∷ none_value ∷ []) (exactly "(err u4026)")
    ∷ []
