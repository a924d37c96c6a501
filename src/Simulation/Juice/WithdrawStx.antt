-- ===== src/Simulation/Juice/WithdrawStx.antt =====
-- The lifecycle scripts of the Juice safe: the withdrawal of STX.
use pillar_wallets_xyz.Base.{List, [], ◌∷◌, ◌++◌, codes}
use pillar_wallets_xyz.Clarity.Value.{uint, principal, none_value}
use pillar_wallets_xyz.Simulation.Juice.Challenge.{sig_auth_tuple}
use pillar_wallets_xyz.Simulation.Juice.Plan.{
  Version, Keys, Step, tx, eval, advance, okre, exactly, owner, recipient, relayer, wd_stx_under,
  wd_stx_over,
}

unfoldable pub plan_withdraw_stx : Version → Keys → List Step
plan_withdraw_stx v k =
    eval "W recipient STX before" (codes "(stx-get-balance '" ++ (codes recipient ++ codes ")"))
      (codes "rStx0") v.wallet
    ∷ tx "W1 withdraw 50 STX (UNDER threshold -> immediate)" owner v.wallet "stx-transfer"
        (uint wd_stx_under ∷ principal recipient ∷ none_value ∷ none_value ∷ none_value ∷ []) okre
    ∷ eval "W1 recipient STX after" (codes "(stx-get-balance '" ++ (codes recipient ++ codes ")"))
        (codes "rStx1") v.wallet
    ∷ tx "W2 withdraw 400 STX (OVER threshold -> pending op, no move)" owner v.wallet "stx-transfer"
        (uint wd_stx_over ∷ principal recipient ∷ none_value ∷ none_value ∷ none_value ∷ []) okre
    ∷ eval "W2 recipient STX after over-threshold attempt"
        (codes "(stx-get-balance '" ++ (codes recipient ++ codes ")")) (codes "rStx2") v.wallet
    ∷ eval "W2 the pending op that was created" (codes "(get-pending-operation u0)") (codes "op0")
        v.wallet
    ∷ tx "W4 plain execute BEFORE cooldown -> u4017" owner v.wallet "execute-pending-stx-transfer"
        (uint 0 ∷ none_value ∷ []) (exactly "(err u4017)")
    ∷ tx "W5 execute-pending-stx-transfer-NOW (PASSKEY 2FA) -> ok, no waiting" relayer v.wallet
        "execute-pending-stx-transfer-now"
        (uint 0 ∷ none_value ∷ sig_auth_tuple 8 k.pub_key_hex k.now_stx ∷ none_value ∷ []) okre
    ∷ eval "W5 recipient STX after the 2FA fast-path"
        (codes "(stx-get-balance '" ++ (codes recipient ++ codes ")")) (codes "rStx3") v.wallet
    ∷ tx "W6 withdraw 400 STX again (OVER threshold -> op 1)" owner v.wallet "stx-transfer"
        (uint wd_stx_over ∷ principal recipient ∷ none_value ∷ none_value ∷ none_value ∷ []) okre
    ∷ advance "advance 150 (past the u144 cooldown)" 150 1
    ∷ tx "W7 plain execute AFTER cooldown -> ok" owner v.wallet "execute-pending-stx-transfer"
        (uint 1 ∷ none_value ∷ []) okre
    ∷ eval "W7 recipient STX after the cooldown path"
        (codes "(stx-get-balance '" ++ (codes recipient ++ codes ")")) (codes "rStx4") v.wallet
    ∷ []
