-- ===== src/Wager/Step/Rates.antt =====
-- What a call does to the fee rates.
use pillar_wallets_xyz.Base.{◌≡◌, refl, nat_eq, string_eq, bytes_eq, inl, inr}
use pillar_wallets_xyz.Clarity.Outcome.{ok}
use pillar_wallets_xyz.Clarity.Value.{Value}
use pillar_wallets_xyz.Webauthn.Crypto.{Crypto}
use pillar_wallets_xyz.Wager.External.{External}
use pillar_wallets_xyz.Wager.Escrow.{
  Env, Chain, Call, deposits, registers_wallet, withdraws, creates_game, resolves_game,
  cancels_game, sets_oracle, sets_fee_rate, sets_withdraw_fee_rate, sets_treasury,
  sets_token_whitelist, sweeps_fees, exec, create_game, resolve_game, cancel_game, set_oracle,
  set_fee_rate, set_withdraw_fee_rate, set_treasury, set_token_whitelist,
}
use pillar_wallets_xyz.Wager.Admin.{
  set_oracle-ok, set_fee_rate-ok, set_withdraw_fee_rate-ok, set_treasury-ok, set_token_whitelist-ok,
}
use pillar_wallets_xyz.Wager.Entry.Create.{create_game-ok}
use pillar_wallets_xyz.Wager.Entry.Close.{resolve_game-ok, cancel_game-ok}
use pillar_wallets_xyz.Wager.Entry.Tokens.{
  deposit-ok, register_wallet-ok, withdraw-ok, sweep_fees-ok,
}
use pillar_wallets_xyz.Wager.Step.Relation.{RatesStep, on_state-keeps, moved_to}

module _ (c : Crypto) (ext : External) (env : Env) where
  pub exec-RatesStep :
      (call : Call) (ch : Chain ext) {r : Value × Chain ext}
      → exec c ext env call ch ≡ ok r
      → RatesStep ch.wager r.1.wager
  unfolding exec
  exec-RatesStep (deposits token amount pubkey) ch e =
      moved_to c ext env RatesStep ch.wager (deposit-ok c ext env ch token amount pubkey e).next
        (inl refl, inl refl)
  exec-RatesStep (registers_wallet wallet pubkey sig) ch e =
      moved_to c ext env RatesStep ch.wager
        (register_wallet-ok c ext env ch wallet pubkey sig e).next (inl refl, inl refl)
  exec-RatesStep (withdraws token name amount recipient pubkey sig) ch e =
      moved_to c ext env RatesStep ch.wager
        (withdraw-ok c ext env ch token name amount recipient pubkey sig e).next
        (inl refl, inl refl)
  exec-RatesStep (creates_game a b token amount sig_a sig_b) ch e =
      on_state-keeps c ext env RatesStep (create_game c env a b token amount sig_a sig_b) ch
        (λ q h.
          let made = create_game-ok c env a b token amount sig_a sig_b ch.wager h in
          moved_to c ext env RatesStep ch.wager made.next (inl refl, inl refl))
        e
  exec-RatesStep (resolves_game id winner) ch e =
      on_state-keeps c ext env RatesStep (resolve_game env id winner) ch
        (λ q h.
          let done = resolve_game-ok env id ch.wager winner h in
          moved_to c ext env RatesStep ch.wager done.next (inl refl, inl refl))
        e
  exec-RatesStep (cancels_game id) ch e =
      on_state-keeps c ext env RatesStep (cancel_game env id) ch
        (λ q h.
          let done = cancel_game-ok env id ch.wager h in
          moved_to c ext env RatesStep ch.wager done.next (inl refl, inl refl))
        e
  exec-RatesStep (sets_oracle p) ch e =
      on_state-keeps c ext env RatesStep (set_oracle env p) ch
        (λ q h.
          moved_to c ext env RatesStep ch.wager (set_oracle-ok env ch.wager p h).1
            (inl refl, inl refl))
        e
  exec-RatesStep (sets_fee_rate n) ch e =
      on_state-keeps c ext env RatesStep (set_fee_rate env n) ch
        (λ q h.
          let (by, small, next) = set_fee_rate-ok env ch.wager n h in
          moved_to c ext env RatesStep ch.wager next (inr small, inl refl))
        e
  exec-RatesStep (sets_withdraw_fee_rate n) ch e =
      on_state-keeps c ext env RatesStep (set_withdraw_fee_rate env n) ch
        (λ q h.
          let (by, small, next) = set_withdraw_fee_rate-ok env ch.wager n h in
          moved_to c ext env RatesStep ch.wager next (inl refl, inr small))
        e
  exec-RatesStep (sets_treasury p) ch e =
      on_state-keeps c ext env RatesStep (set_treasury env p) ch
        (λ q h.
          moved_to c ext env RatesStep ch.wager (set_treasury-ok env ch.wager p h).1
            (inl refl, inl refl))
        e
  exec-RatesStep (sets_token_whitelist token enabled) ch e =
      on_state-keeps c ext env RatesStep (set_token_whitelist env token enabled) ch
        (λ q h.
          moved_to c ext env RatesStep ch.wager
            (set_token_whitelist-ok env ch.wager token enabled h).1 (inl refl, inl refl))
        e
  exec-RatesStep (sweeps_fees token name) ch e =
      moved_to c ext env RatesStep ch.wager (sweep_fees-ok c ext env ch token name e).next
        (inl refl, inl refl)
