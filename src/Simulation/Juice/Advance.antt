-- ===== src/Simulation/Juice/Advance.antt =====
-- The lifecycle scripts of the Juice safe: the cycle boundary and the live lock.
use pillar_wallets_xyz.Base.{List, [], ◌∷◌, ◌++◌, codes}
use pillar_wallets_xyz.Clarity.Value.{uint, none_value, some_value}
use pillar_wallets_xyz.Simulation.Juice.Challenge.{sig_auth_tuple}
use pillar_wallets_xyz.Simulation.Juice.Plan.{
  Version, Keys, Step, tx, eval, advance, okre, owner, relayer, pox5, topup_ustx,
}

unfoldable pub plan_advance : Version → Keys → List Step
plan_advance v k =
    advance v.advance_label v.advance_blocks 1
    ∷ eval "E1 stx-account AFTER advance (expect locked>0)"
        (codes "(stx-account '" ++ (codes v.wallet ++ codes ")")) (codes "acctL") v.wallet
    ∷ eval "E1 staker-info AFTER advance"
        (codes "(contract-call? '"
          ++ (codes pox5 ++ (codes " get-staker-info '" ++ (codes v.wallet ++ codes ")"))))
        (codes "infoL") v.wallet
    ∷ tx "E2 top-up AGAINST A LIVE LOCK (admin) -> ok  <-- allowance really checked" owner v.wallet
        "update-stake-stx-juice" (uint topup_ustx ∷ uint 0 ∷ none_value ∷ none_value ∷ []) okre
    ∷ eval "E2 stx-account AFTER live top-up"
        (codes "(stx-account '" ++ (codes v.wallet ++ codes ")")) (codes "acctL2") v.wallet
    ∷ tx "E3 extend +1 cycle (PASSKEY) -> ok" relayer v.wallet "update-stake-stx-juice"
        (uint 0 ∷ uint 1 ∷ some_value (sig_auth_tuple 2 k.pub_key_hex k.extend) ∷ none_value ∷ [])
        okre
    ∷ eval "E3 staker-info AFTER extend"
        (codes "(contract-call? '"
          ++ (codes pox5 ++ (codes " get-staker-info '" ++ (codes v.wallet ++ codes ")"))))
        (codes "infoE") v.wallet
    ∷ eval "E4 our shares in cycle 141"
        (codes "(contract-call? '"
          ++ (codes pox5
              ++ (codes " get-staker-shares-staked-for-cycle '"
                  ++ (codes v.wallet
                      ++ (codes " "
                          ++ (codes v.cycle_text
                              ++ codes
                                  " none 'SPV9K21TBFAK4KNRJXF5DFP8N7W46G4V9RCJDC22.juice-pool-stx-signer)"))))))
        (codes "shares") v.wallet
    ∷ eval "E4 pool TOTAL shares cycle 141"
        (codes "(contract-call? '"
          ++ (codes pox5
              ++ (codes " get-total-shares-staked-for-cycle "
                  ++ (codes v.cycle_text ++ codes " none)"))))
        (codes "tot") v.wallet
    ∷ eval "E4 unclaimed rewards cycle 141"
        (codes "(contract-call? '"
          ++ (codes pox5
              ++ (codes
                    " get-staker-unclaimed-rewards-for-cycle 'SPV9K21TBFAK4KNRJXF5DFP8N7W46G4V9RCJDC22.juice-pool-stx-signer "
                  ++ (codes v.cycle_text ++ (codes " none '" ++ (codes v.wallet ++ codes ")"))))))
        (codes "rew") v.wallet
    ∷ []
