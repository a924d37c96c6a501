-- ===== src/Wager/Step/Used.antt =====
-- No call forgets a used signature.
use pillar_wallets_xyz.Base.{◌≡◌, nat_eq, string_eq, bytes_eq, Bytes}
use pillar_wallets_xyz.Clarity.Outcome.{ok}
use pillar_wallets_xyz.Clarity.Value.{Value}
use pillar_wallets_xyz.Webauthn.Crypto.{Crypto}
use pillar_wallets_xyz.Wager.State.{is_signature_used}
use pillar_wallets_xyz.Wager.External.{External}
use pillar_wallets_xyz.Wager.Escrow.{
  Env, Chain, Call, deposits, registers_wallet, withdraws, creates_game, resolves_game,
  cancels_game, sets_oracle, sets_fee_rate, sets_withdraw_fee_rate, sets_treasury,
  sets_token_whitelist, sweeps_fees, exec, create_game, resolve_game, cancel_game, set_oracle,
  set_fee_rate, set_withdraw_fee_rate, set_treasury, set_token_whitelist,
}
use pillar_wallets_xyz.Wager.Effects.{mark_used}
use pillar_wallets_xyz.Wager.Admin.{
  set_oracle-ok, set_fee_rate-ok, set_withdraw_fee_rate-ok, set_treasury-ok, set_token_whitelist-ok,
}
use pillar_wallets_xyz.Wager.Entry.Create.{create_game-ok, hash_of}
use pillar_wallets_xyz.Wager.Entry.Close.{resolve_game-ok, cancel_game-ok}
use pillar_wallets_xyz.Wager.Entry.Tokens.{
  deposit-ok, register_wallet-ok, withdraw-ok, sweep_fees-ok, withdrawal_hash,
}
use pillar_wallets_xyz.Wager.Hashes.{build_register_wallet_hash}
use pillar_wallets_xyz.Wager.Step.Relation.{
  StaysUsed, mark_used-StaysUsed, on_state-keeps, moved_to,
}

module _ (c : Crypto) (ext : External) (env : Env) where
  pub exec-StaysUsed :
      (hash : Bytes) (call : Call) (ch : Chain ext) {r : Value × Chain ext}
      → exec c ext env call ch ≡ ok r
      → StaysUsed hash ch.wager r.1.wager
  unfolding exec is_signature_used
  exec-StaysUsed hash (deposits token amount pubkey) ch e =
      moved_to c ext env (StaysUsed hash) ch.wager
        (deposit-ok c ext env ch token amount pubkey e).next (λ used. used)
  exec-StaysUsed hash (registers_wallet wallet pubkey sig) ch e =
      moved_to c ext env (StaysUsed hash) ch.wager
        (register_wallet-ok c ext env ch wallet pubkey sig e).next
        (λ used.
          mark_used-StaysUsed hash
            (build_register_wallet_hash c env.chain env.contract sig.auth_id wallet) pubkey ch.wager
            used)
  exec-StaysUsed hash (withdraws token name amount recipient pubkey sig) ch e =
      moved_to c ext env (StaysUsed hash) ch.wager
        (withdraw-ok c ext env ch token name amount recipient pubkey sig e).next
        (λ used.
          mark_used-StaysUsed hash (withdrawal_hash c ext env ch token amount recipient pubkey sig)
            pubkey ch.wager used)
  exec-StaysUsed hash (creates_game a b token amount sig_a sig_b) ch e =
      on_state-keeps c ext env (StaysUsed hash) (create_game c env a b token amount sig_a sig_b) ch
        (λ q h.
          let made = create_game-ok c env a b token amount sig_a sig_b ch.wager h in
          moved_to c ext env (StaysUsed hash) ch.wager made.next (λ used.
            let hash_a = hash_of c env a b token amount sig_a sig_b ch.wager sig_a.auth_id b in
            let hash_b = hash_of c env a b token amount sig_a sig_b ch.wager sig_b.auth_id a in
            mark_used-StaysUsed hash hash_b b (mark_used hash_a a ch.wager)
              (mark_used-StaysUsed hash hash_a a ch.wager used)))
        e
  exec-StaysUsed hash (resolves_game id winner) ch e =
      on_state-keeps c ext env (StaysUsed hash) (resolve_game env id winner) ch
        (λ q h.
          let done = resolve_game-ok env id ch.wager winner h in
          moved_to c ext env (StaysUsed hash) ch.wager done.next (λ used. used))
        e
  exec-StaysUsed hash (cancels_game id) ch e =
      on_state-keeps c ext env (StaysUsed hash) (cancel_game env id) ch
        (λ q h.
          let done = cancel_game-ok env id ch.wager h in
          moved_to c ext env (StaysUsed hash) ch.wager done.next (λ used. used))
        e
  exec-StaysUsed hash (sets_oracle p) ch e =
      on_state-keeps c ext env (StaysUsed hash) (set_oracle env p) ch
        (λ q h.
          moved_to c ext env (StaysUsed hash) ch.wager (set_oracle-ok env ch.wager p h).1
            (λ used. used))
        e
  exec-StaysUsed hash (sets_fee_rate n) ch e =
      on_state-keeps c ext env (StaysUsed hash) (set_fee_rate env n) ch
        (λ q h.
          moved_to c ext env (StaysUsed hash) ch.wager (set_fee_rate-ok env ch.wager n h).2
            (λ used. used))
        e
  exec-StaysUsed hash (sets_withdraw_fee_rate n) ch e =
      on_state-keeps c ext env (StaysUsed hash) (set_withdraw_fee_rate env n) ch
        (λ q h.
          moved_to c ext env (StaysUsed hash) ch.wager (set_withdraw_fee_rate-ok env ch.wager n h).2
            (λ used. used))
        e
  exec-StaysUsed hash (sets_treasury p) ch e =
      on_state-keeps c ext env (StaysUsed hash) (set_treasury env p) ch
        (λ q h.
          moved_to c ext env (StaysUsed hash) ch.wager (set_treasury-ok env ch.wager p h).1
            (λ used. used))
        e
  exec-StaysUsed hash (sets_token_whitelist token enabled) ch e =
      on_state-keeps c ext env (StaysUsed hash) (set_token_whitelist env token enabled) ch
        (λ q h.
          moved_to c ext env (StaysUsed hash) ch.wager
            (set_token_whitelist-ok env ch.wager token enabled h).1 (λ used. used))
        e
  exec-StaysUsed hash (sweeps_fees token name) ch e =
      moved_to c ext env (StaysUsed hash) ch.wager (sweep_fees-ok c ext env ch token name e).next
        (λ used. used)
