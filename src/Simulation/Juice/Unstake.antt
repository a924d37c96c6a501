-- ===== src/Simulation/Juice/Unstake.antt =====
-- The lifecycle scripts of the Juice safe: the two ways to unstake, and the unlock.
use pillar_wallets_xyz.Base.{List, [], ◌∷◌, ◌++◌, codes}
use pillar_wallets_xyz.Clarity.Value.{uint, none_value, some_value}
use pillar_wallets_xyz.Simulation.Juice.Challenge.{sig_auth_tuple}
use pillar_wallets_xyz.Simulation.Juice.Plan.{
  Version, Keys, Step, tx, eval, advance, okre, exactly, owner, random, relayer, pox5, signer,
}

unfoldable pub plan_unstake : Version → Keys → List Step
plan_unstake v k =
    tx "U0a unstake by random -> u4001" random v.wallet "unstake" (none_value ∷ none_value ∷ [])
      (exactly "(err u4001)")
    ∷ tx "U0b unstake by the ADMIN KEY (no signature) -> ok" owner v.wallet "unstake"
        (none_value ∷ none_value ∷ []) okre
    ∷ eval "staker-info after the ADMIN unstake"
        (codes "(contract-call? '"
          ++ (codes pox5 ++ (codes " get-staker-info '" ++ (codes v.wallet ++ codes ")"))))
        (codes "iAdmin") v.wallet
    ∷ tx "U0c re-stake so there is a position to exit again" owner v.wallet "update-stake-stx-juice"
        (uint 50000000 ∷ uint 1 ∷ none_value ∷ none_value ∷ []) okre
    ∷ tx "U1 unstake (PASSKEY via relayer) -> ok" relayer v.wallet "unstake"
        (some_value (sig_auth_tuple 3 k.pub_key_hex k.unstake) ∷ none_value ∷ []) okre
    ∷ eval "LOCKED per pox-5, after unstake (position truncated, still locked)"
        (codes "(contract-call? '"
          ++ (codes pox5 ++ (codes " get-staker-info '" ++ (codes v.wallet ++ codes ")"))))
        (codes "uInfo") v.wallet
    ∷ eval "shares after unstake (next cycle)"
        (codes "(contract-call? '"
          ++ (codes pox5
              ++ (codes " get-staker-shares-staked-for-cycle '"
                  ++ (codes v.wallet
                      ++ (codes " "
                          ++ (codes "u142" ++ (codes " none '" ++ (codes signer ++ codes ")"))))))))
        (codes "sharesNext") v.wallet
    ∷ eval "U1 stx-account after unstake" (codes "(stx-account '" ++ (codes v.wallet ++ codes ")"))
        (codes "uAcct") v.wallet
    ∷ advance "advance 3000 (past the unlock height)" 3000 1
    ∷ eval "LOCKED per pox-5, AFTER unlock cycle (expect none = released)"
        (codes "(contract-call? '"
          ++ (codes pox5 ++ (codes " get-staker-info '" ++ (codes v.wallet ++ codes ")"))))
        (codes "uInfo2") v.wallet
    ∷ eval "U2 stx-account AFTER unlock (STX spendable again)"
        (codes "(stx-account '" ++ (codes v.wallet ++ codes ")")) (codes "uAcct2") v.wallet
    ∷ []
