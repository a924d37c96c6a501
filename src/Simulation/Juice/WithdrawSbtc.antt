-- ===== src/Simulation/Juice/WithdrawSbtc.antt =====
-- The lifecycle scripts of the Juice safe: the withdrawal of sBTC.
use pillar_wallets_xyz.Base.{List, [], ◌∷◌, ◌++◌, codes}
use pillar_wallets_xyz.Clarity.Value.{uint, principal, ascii, none_value}
use pillar_wallets_xyz.Simulation.Juice.Challenge.{sig_auth_tuple}
use pillar_wallets_xyz.Simulation.Juice.Plan.{
  Version, Keys, Step, tx, eval, advance, okre, exactly, owner, recipient, relayer, sbtc_token,
  sbtc_whale, wd_sbtc, sbtc_big_fund, wd_sbtc_over,
}

unfoldable pub plan_withdraw_sbtc : Version → Keys → List Step
plan_withdraw_sbtc v k =
    tx "fund 500000 sats sBTC (to exceed the 100k threshold)" sbtc_whale sbtc_token "transfer"
      (uint sbtc_big_fund ∷ principal sbtc_whale ∷ principal v.wallet ∷ none_value ∷ []) okre
    ∷ eval "S recipient sBTC before the over-threshold legs"
        (codes "(contract-call? '"
          ++ (codes sbtc_token ++ (codes " get-balance '" ++ (codes recipient ++ codes ")"))))
        (codes "sR0") v.wallet
    ∷ tx "S1 send 150000 sats (OVER threshold -> pending op 2, no move)" owner v.wallet
        "sip010-transfer"
        (uint wd_sbtc_over
          ∷ principal recipient
          ∷ none_value
          ∷ principal sbtc_token
          ∷ ascii "sbtc-token"
          ∷ none_value
          ∷ none_value
          ∷ [])
        okre
    ∷ eval "S1 recipient sBTC after (must be unchanged)"
        (codes "(contract-call? '"
          ++ (codes sbtc_token ++ (codes " get-balance '" ++ (codes recipient ++ codes ")"))))
        (codes "sR1") v.wallet
    ∷ eval "S1 the pending sBTC op" (codes "(get-pending-operation u2)") (codes "sOp") v.wallet
    ∷ tx "S2 plain execute BEFORE cooldown -> u4017" owner v.wallet "execute-pending-sbtc-transfer"
        (uint 2 ∷ none_value ∷ []) (exactly "(err u4017)")
    ∷ tx "S3 execute-pending-sbtc-transfer-NOW (PASSKEY 2FA) -> ok" relayer v.wallet
        "execute-pending-sbtc-transfer-now"
        (uint 2 ∷ none_value ∷ sig_auth_tuple 9 k.pub_key_hex k.now_sbtc ∷ none_value ∷ []) okre
    ∷ eval "S3 recipient sBTC after the 2FA fast-path"
        (codes "(contract-call? '"
          ++ (codes sbtc_token ++ (codes " get-balance '" ++ (codes recipient ++ codes ")"))))
        (codes "sR2") v.wallet
    ∷ tx "S4 send 150000 sats again (OVER threshold -> pending op 3)" owner v.wallet
        "sip010-transfer"
        (uint wd_sbtc_over
          ∷ principal recipient
          ∷ none_value
          ∷ principal sbtc_token
          ∷ ascii "sbtc-token"
          ∷ none_value
          ∷ none_value
          ∷ [])
        okre
    ∷ advance "advance 150 (past the u144 cooldown)" 150 1
    ∷ tx "S5 plain execute by OWNER AFTER cooldown -> ok" owner v.wallet
        "execute-pending-sbtc-transfer" (uint 3 ∷ none_value ∷ []) okre
    ∷ eval "S5 recipient sBTC after the cooldown path"
        (codes "(contract-call? '"
          ++ (codes sbtc_token ++ (codes " get-balance '" ++ (codes recipient ++ codes ")"))))
        (codes "sR3") v.wallet
    ∷ eval "W3 recipient sBTC before"
        (codes "(contract-call? '"
          ++ (codes sbtc_token ++ (codes " get-balance '" ++ (codes recipient ++ codes ")"))))
        (codes "rSb0") v.wallet
    ∷ tx "W3 withdraw 1000 sats sBTC (UNDER threshold -> immediate)" owner v.wallet
        "sip010-transfer"
        (uint wd_sbtc
          ∷ principal recipient
          ∷ none_value
          ∷ principal sbtc_token
          ∷ ascii "sbtc-token"
          ∷ none_value
          ∷ none_value
          ∷ [])
        okre
    ∷ eval "W3 recipient sBTC after"
        (codes "(contract-call? '"
          ++ (codes sbtc_token ++ (codes " get-balance '" ++ (codes recipient ++ codes ")"))))
        (codes "rSb1") v.wallet
    ∷ []
