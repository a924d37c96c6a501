-- ===== src/Simulation/Juice/Rewards.antt =====
-- The lifecycle scripts of the Juice safe: the reward payout.
use pillar_wallets_xyz.Base.{String, List, [], ◌∷◌, ◌++◌, codes}
use pillar_wallets_xyz.Clarity.Value.{uint, principal, none_value, list, empty, item}
use pillar_wallets_xyz.Simulation.Juice.Plan.{
  Version, Keys, Step, tx, eval, advance, okre, principals, real_stakers, relayer, pox5, signer,
  sbtc_token, sbtc_whale, reward_sats,
}

-- The labels and the captured names of `REAL_STAKERS.forEach((p, i) => evalc(...))`, i from 0 to 7.
abbrev before_names : List (String × String)
before_names =
    ("  real staker 1 sBTC before", "rs0a")
    ∷ ("  real staker 2 sBTC before", "rs1a")
    ∷ ("  real staker 3 sBTC before", "rs2a")
    ∷ ("  real staker 4 sBTC before", "rs3a")
    ∷ ("  real staker 5 sBTC before", "rs4a")
    ∷ ("  real staker 6 sBTC before", "rs5a")
    ∷ ("  real staker 7 sBTC before", "rs6a")
    ∷ ("  real staker 8 sBTC before", "rs7a")
    ∷ []

abbrev after_names : List (String × String)
after_names =
    ("  real staker 1 sBTC after", "rs0b")
    ∷ ("  real staker 2 sBTC after", "rs1b")
    ∷ ("  real staker 3 sBTC after", "rs2b")
    ∷ ("  real staker 4 sBTC after", "rs3b")
    ∷ ("  real staker 5 sBTC after", "rs4b")
    ∷ ("  real staker 6 sBTC after", "rs5b")
    ∷ ("  real staker 7 sBTC after", "rs6b")
    ∷ ("  real staker 8 sBTC after", "rs7b")
    ∷ []

-- One read for each staker, under its label and name.
unfoldable pub staker_reads : Version → List (String × String) → List String → List Step
staker_reads v ((label, capture) ∷ names) (staker ∷ rest) =
    eval label
      (codes "(contract-call? '"
        ++ (codes sbtc_token ++ (codes " get-balance '" ++ (codes staker ++ codes ")"))))
      (codes capture) v.wallet
    ∷ staker_reads v names rest
staker_reads v [] stakers = []
staker_reads v (name ∷ names) [] = []

unfoldable pub plan_rewards : Version → Keys → List Step
plan_rewards v k =
    (eval "R0 pox-5 sBTC balance BEFORE reward drop"
        (codes "(contract-call? '"
          ++ (codes sbtc_token ++ (codes " get-balance '" ++ (codes pox5 ++ codes ")"))))
        (codes "px0") v.wallet
      ∷ tx "R1 send 2000000 sats to pox-5 (= the cycle's rewards)" sbtc_whale sbtc_token "transfer"
          (uint reward_sats ∷ principal sbtc_whale ∷ principal pox5 ∷ none_value ∷ []) okre
      ∷ eval "R1 pox-5 new-rewards seen"
          (codes "(contract-call? '" ++ (codes pox5 ++ codes " get-new-rewards)")) (codes "newrew")
          v.wallet
      ∷ advance "advance 1100 (clear a distribution cycle)" 1100 1
      ∷ tx "R2 pox-5.calculate-rewards (permissionless)" relayer pox5 "calculate-rewards"
          (list empty ∷ []) okre
      ∷ tx "R3 signer.pox-claim-rewards -> pulls into the Juice pot" relayer signer
          "pox-claim-rewards" (list empty ∷ uint v.reward_cycle ∷ []) okre
      ∷ eval "R3 Juice stx-pot for cycle/tranche 0"
          (codes "(contract-call? '"
            ++ (codes signer ++ (codes " get-stx-pot " ++ (codes v.cycle_text ++ codes " u0)"))))
          (codes "pot") v.wallet
      ∷ eval "R3 our entitlement per the signer"
          (codes "(contract-call? '"
            ++ (codes signer
                ++ (codes " get-staker-entitlement '"
                    ++ (codes v.wallet ++ (codes " " ++ (codes v.cycle_text ++ codes " none)"))))))
          (codes "ent") v.wallet
      ∷ eval "R safe sBTC BEFORE payout"
          (codes "(contract-call? '"
            ++ (codes sbtc_token ++ (codes " get-balance '" ++ (codes v.wallet ++ codes ")"))))
          (codes "sb0") v.wallet
      ∷ [])
    ++ (staker_reads v before_names real_stakers
        ++ ((tx "R signer.pay-stx-stakers([safe + 8 REAL stakers]) -> pays the whole list" relayer
                signer "pay-stx-stakers"
                (list (item (principal v.wallet) (principals real_stakers))
                  ∷ uint v.reward_cycle
                  ∷ uint 0
                  ∷ [])
                okre
              ∷ [])
            ++ (staker_reads v after_names real_stakers
                ++ (eval "R safe sBTC AFTER payout"
                      (codes "(contract-call? '"
                        ++ (codes sbtc_token
                            ++ (codes " get-balance '" ++ (codes v.wallet ++ codes ")"))))
                      (codes "sb1") v.wallet
                    ∷ tx "R2 pay-stx-stakers AGAIN, same tranche, SAME LIST -> must pay NOTHING"
                        relayer signer "pay-stx-stakers"
                        (list (item (principal v.wallet) (principals real_stakers))
                          ∷ uint v.reward_cycle
                          ∷ uint 0
                          ∷ [])
                        okre
                    ∷ eval "safe sBTC after the SECOND pay"
                        (codes "(contract-call? '"
                          ++ (codes sbtc_token
                              ++ (codes " get-balance '" ++ (codes v.wallet ++ codes ")"))))
                        (codes "sbDouble") v.wallet
                    ∷ []))))
