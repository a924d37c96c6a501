-- ===== src/Wager/Admin.antt =====
-- The deployer's entry points of game-wager-v2.clar.
use pillar_wallets_xyz.Base.{
  ℕ, ◌≤◌, ◌≡◌, nat_eq, string_eq, String, Bool, true, sym, ap, leb, leb→le, ◌==◌, insert,
}
use pillar_wallets_xyz.Clarity.Outcome.{ok}
use pillar_wallets_xyz.Clarity.Value.{Value}
use pillar_wallets_xyz.Wager.State.{State, get_accumulated_fees}
use pillar_wallets_xyz.Wager.Escrow.{
  Env, set_oracle, set_fee_rate, set_withdraw_fee_rate, set_treasury, set_token_whitelist,
}
use pillar_wallets_xyz.Wager.Effects.{asserts-ok, ok_inj}
use pillar_wallets_xyz.Wager.Owed.{owed}

module _ (env : Env) (s : State) {r : Value × State} where
  pub set_oracle-ok :
      (p : String)
      → set_oracle env p s ≡ ok r
      → (env.tx_sender == env.deployer ≡ true) × (r.1 ≡ record s { oracle = p })
  unfolding set_oracle
  set_oracle-ok p e =
      let (by, last) = asserts-ok (env.tx_sender == env.deployer) _ _ e in
      (by, ap (λ (q : Value × State). q.1) (sym (ok_inj last)))

  pub set_fee_rate-ok :
      (n : ℕ)
      → set_fee_rate env n s ≡ ok r
      → (env.tx_sender == env.deployer ≡ true) × (n ≤ 2000) × (r.1 ≡ record s { fee_rate = n })
  unfolding set_fee_rate
  set_fee_rate-ok n e =
      let (by, e1) = asserts-ok (env.tx_sender == env.deployer) _ _ e in
      let (small, last) = asserts-ok (leb n 2000) _ _ e1 in
      (by, leb→le n 2000 small, ap (λ (q : Value × State). q.1) (sym (ok_inj last)))

  pub set_withdraw_fee_rate-ok :
      (n : ℕ)
      → set_withdraw_fee_rate env n s ≡ ok r
      → (env.tx_sender == env.deployer ≡ true)
        × (n ≤ 1000)
        × (r.1 ≡ record s { withdraw_fee_rate = n })
  unfolding set_withdraw_fee_rate
  set_withdraw_fee_rate-ok n e =
      let (by, e1) = asserts-ok (env.tx_sender == env.deployer) _ _ e in
      let (small, last) = asserts-ok (leb n 1000) _ _ e1 in
      (by, leb→le n 1000 small, ap (λ (q : Value × State). q.1) (sym (ok_inj last)))

  pub set_treasury-ok :
      (p : String)
      → set_treasury env p s ≡ ok r
      → (env.tx_sender == env.deployer ≡ true) × (r.1 ≡ record s { treasury = p })
  unfolding set_treasury
  set_treasury-ok p e =
      let (by, last) = asserts-ok (env.tx_sender == env.deployer) _ _ e in
      (by, ap (λ (q : Value × State). q.1) (sym (ok_inj last)))

  pub set_token_whitelist-ok :
      (token : String) (enabled : Bool)
      → set_token_whitelist env token enabled s ≡ ok r
      → (env.tx_sender == env.deployer ≡ true)
        × (r.1 ≡ record s { whitelisted_tokens = insert token enabled s.whitelisted_tokens })
  unfolding set_token_whitelist
  set_token_whitelist-ok token enabled e =
      let (by, last) = asserts-ok (env.tx_sender == env.deployer) _ _ e in
      (by, ap (λ (q : Value × State). q.1) (sym (ok_inj last)))

module _ (t : String) (env : Env) (s : State) {r : Value × State} where
  pub set_oracle-owed : (p : String) → set_oracle env p s ≡ ok r → owed t r.1 ≡ owed t s
  unfolding owed get_accumulated_fees
  set_oracle-owed p e = ap (owed t) (set_oracle-ok env s p e).1

  pub set_fee_rate-owed : (n : ℕ) → set_fee_rate env n s ≡ ok r → owed t r.1 ≡ owed t s
  unfolding owed get_accumulated_fees
  set_fee_rate-owed n e = ap (owed t) (set_fee_rate-ok env s n e).2

  pub set_withdraw_fee_rate-owed :
      (n : ℕ) → set_withdraw_fee_rate env n s ≡ ok r → owed t r.1 ≡ owed t s
  unfolding owed get_accumulated_fees
  set_withdraw_fee_rate-owed n e = ap (owed t) (set_withdraw_fee_rate-ok env s n e).2

  pub set_treasury-owed : (p : String) → set_treasury env p s ≡ ok r → owed t r.1 ≡ owed t s
  unfolding owed get_accumulated_fees
  set_treasury-owed p e = ap (owed t) (set_treasury-ok env s p e).1

  pub set_token_whitelist-owed :
      (token : String) (enabled : Bool)
      → set_token_whitelist env token enabled s ≡ ok r
      → owed t r.1 ≡ owed t s
  unfolding owed get_accumulated_fees
  set_token_whitelist-owed token enabled e =
      ap (owed t) (set_token_whitelist-ok env s token enabled e).1
