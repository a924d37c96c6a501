-- ===== src/Wager/Solvency.antt =====
-- game-wager-v2.clar stays solvent: through every call, and every sequence of calls, it holds at
-- least what it owes in each token.
use mathlib.Core.Path.{subst}
use pillar_wallets_xyz.Base.{
  arith, ℕ, ◌+◌, ◌≤◌, ◌≡◌, ◌≢◌, refl, nat_eq, string_eq, String, sym, ap, List, [], ◌∷◌, Bool-cases,
  inl, inr, ==_eq, ==_neq, ◌==◌,
}
use pillar_wallets_xyz.Clarity.Outcome.{Outcome, ok, err, abort}
use pillar_wallets_xyz.Clarity.Value.{Value}
use pillar_wallets_xyz.Webauthn.Crypto.{Crypto}
use pillar_wallets_xyz.Wager.State.{State}
use pillar_wallets_xyz.Wager.External.{External, IsSip010}
use pillar_wallets_xyz.Wager.Escrow.{
  Env, Chain, Call, deposits, registers_wallet, withdraws, creates_game, resolves_game,
  cancels_game, sets_oracle, sets_fee_rate, sets_withdraw_fee_rate, sets_treasury,
  sets_token_whitelist, sweeps_fees, exec, on_state, settled, run, set_oracle, set_fee_rate,
  set_withdraw_fee_rate, set_treasury, set_token_whitelist, create_game, resolve_game, cancel_game,
}
use pillar_wallets_xyz.Wager.Effects.{bind-ok, ok_inj}
use pillar_wallets_xyz.Wager.Owed.{owed, share}
use pillar_wallets_xyz.Wager.Admin.{
  set_oracle-owed, set_fee_rate-owed, set_withdraw_fee_rate-owed, set_treasury-owed,
  set_token_whitelist-owed,
}
use pillar_wallets_xyz.Wager.Accounting.{
  create_game-owed, resolve_game-owed, cancel_game-owed, deposit-owed, register_wallet-owed,
  withdraw-owed, sweep_fees-owed,
}
use pillar_wallets_xyz.Wager.Entry.Tokens.{deposit-ok, register_wallet-ok, sweep_fees-ok}

abbrev pub IsSolvent : (ext : External) → String → Chain ext → Type 0
IsSolvent ext contract ch = (t : String) → owed t ch.wager ≤ ext.held ch.ledger t contract

-- What moved in `t`, when `amount` of `token` did.
module _ (ext : External) (contract : String) (laws : IsSip010 ext contract) where
  transfer-held :
      (t token : String) (amount : ℕ) (sender : String) (l l' : ext.Ledger)
      → sender ≢ contract
      → ext.transfer token amount sender contract l ≡ ok l'
      → ext.held l t contract + share t token amount ≤ ext.held l' t contract
  transfer-held t token amount sender l l' other e = elim (Bool-cases (token == t)) [
    | inl same ↦
        let paid = laws.transfer_in token amount sender l l' other e in
        rw (same, sym (==_eq token t same)) paid
    | inr apart ↦
        let grows : ext.held l t contract ≤ ext.held l' t contract =
          laws.transfer_in_others token amount sender t l l' e (==_neq token t apart) in
        rw apart (omega arith)
  ]

  payout-held :
      (t token name : String) (amount : ℕ) (recipient : String) (l l' : ext.Ledger)
      → ext.transfer_as_contract token name amount contract recipient l ≡ ok l'
      → ext.held l t contract ≤ ext.held l' t contract + share t token amount
  payout-held t token name amount recipient l l' e = elim (Bool-cases (token == t)) [
    | inl same ↦
        let paid = laws.payout token name amount recipient l l' e in
        rw (same, sym (==_eq token t same)) paid
    | inr apart ↦
        let kept : ext.held l t contract ≤ ext.held l' t contract =
          laws.payout_others token name amount recipient t l l' e (==_neq token t apart) in
        rw apart (omega arith)
  ]

module _ (c : Crypto) (ext : External) (env : Env) (laws : IsSip010 ext env.contract) where
  -- An entry point that leaves the tokens alone and what is owed no higher.
  on_state-IsSolvent :
      (f : State → Outcome (Value × State)) (ch : Chain ext) {r : Value × Chain ext}
      → ((t : String) (q : Value × State) → f ch.wager ≡ ok q → owed t q.1 ≤ owed t ch.wager)
      → IsSolvent ext env.contract ch
      → on_state c ext env f ch ≡ ok r
      → IsSolvent ext env.contract r.1
  on_state-IsSolvent f ch {r} shrinks solvent e t =
      let (q, ran, last) = bind-ok (f ch.wager) _ e in
      let eq = ok_inj last in
      let less = shrinks t q ran in
      let wagers = ap (λ (p : Value × Chain ext). owed t p.1.wager) eq in
      let held = ap (λ (p : Value × Chain ext). ext.held p.1.ledger t env.contract) eq in
      omega (arith, less, solvent t, wagers, held)

  exec-IsSolvent :
      (call : Call) (ch : Chain ext) {r : Value × Chain ext}
      → env.tx_sender ≢ env.contract
      → IsSolvent ext env.contract ch
      → exec c ext env call ch ≡ ok r
      → IsSolvent ext env.contract r.1
  unfolding exec
  exec-IsSolvent (deposits token amount pubkey) ch other solvent e t =
      let h = deposit-ok c ext env ch token amount pubkey e in
      omega (
        arith,
        transfer-held ext env.contract laws t token amount env.tx_sender ch.ledger _ other h.moved,
        deposit-owed t c ext env ch token amount pubkey e,
        solvent t,
      )
  exec-IsSolvent (registers_wallet wallet pubkey sig) ch other solvent e t =
      let h = register_wallet-ok c ext env ch wallet pubkey sig e in
      omega (
        arith,
        laws.admin_check wallet pubkey t ch.ledger _ h.admin,
        register_wallet-owed t c ext env ch wallet pubkey sig e,
        solvent t,
      )
  exec-IsSolvent (withdraws token name amount recipient pubkey sig) ch other solvent e t =
      let (payout, moved, less) =
        withdraw-owed t c ext env ch token name amount recipient pubkey sig e in
      omega (
        arith,
        payout-held ext env.contract laws t token name payout _ ch.ledger _ moved,
        less,
        solvent t,
      )
  exec-IsSolvent (creates_game a b token amount sig_a sig_b) ch other solvent e t =
      on_state-IsSolvent (create_game c env a b token amount sig_a sig_b) ch
        (λ t' q h. omega (arith, create_game-owed t' c env a b token amount sig_a sig_b ch.wager h))
        solvent e t
  exec-IsSolvent (resolves_game id winner) ch other solvent e t =
      on_state-IsSolvent (resolve_game env id winner) ch
        (λ t' q h. omega (arith, resolve_game-owed t' env id winner ch.wager h)) solvent e t
  exec-IsSolvent (cancels_game id) ch other solvent e t =
      on_state-IsSolvent (cancel_game env id) ch
        (λ t' q h. omega (arith, cancel_game-owed t' env id ch.wager h)) solvent e t
  exec-IsSolvent (sets_oracle p) ch other solvent e t =
      on_state-IsSolvent (set_oracle env p) ch
        (λ t' q h. omega (arith, set_oracle-owed t' env ch.wager p h)) solvent e t
  exec-IsSolvent (sets_fee_rate n) ch other solvent e t =
      on_state-IsSolvent (set_fee_rate env n) ch
        (λ t' q h. omega (arith, set_fee_rate-owed t' env ch.wager n h)) solvent e t
  exec-IsSolvent (sets_withdraw_fee_rate n) ch other solvent e t =
      on_state-IsSolvent (set_withdraw_fee_rate env n) ch
        (λ t' q h. omega (arith, set_withdraw_fee_rate-owed t' env ch.wager n h)) solvent e t
  exec-IsSolvent (sets_treasury p) ch other solvent e t =
      on_state-IsSolvent (set_treasury env p) ch
        (λ t' q h. omega (arith, set_treasury-owed t' env ch.wager p h)) solvent e t
  exec-IsSolvent (sets_token_whitelist token enabled) ch other solvent e t =
      on_state-IsSolvent (set_token_whitelist env token enabled) ch
        (λ t' q h. omega (arith, set_token_whitelist-owed t' env ch.wager token enabled h)) solvent
        e t
  exec-IsSolvent (sweeps_fees token name) ch other solvent e t =
      let h = sweep_fees-ok c ext env ch token name e in
      omega (
        arith,
        payout-held ext env.contract laws t token name _ _ ch.ledger _ h.moved,
        sweep_fees-owed t c ext env ch token name e,
        solvent t,
      )

-- Each transaction goes to `contract` and comes from someone else.
abbrev pub AllFromOthers : String → List (Env × Call) → Type 0
AllFromOthers contract [] = Unit
AllFromOthers contract ((env, call) ∷ calls) =
    (env.contract ≡ contract) × (env.tx_sender ≢ contract) × AllFromOthers contract calls

module _ (c : Crypto) (ext : External) (contract : String) (laws : IsSip010 ext contract) where
  settled-IsSolvent :
      (o : Outcome (Value × Chain ext)) (ch : Chain ext)
      → IsSolvent ext contract ch
      → ((r : Value × Chain ext) → o ≡ ok r → IsSolvent ext contract r.1)
      → IsSolvent ext contract (settled ch o)
  settled-IsSolvent (ok r) ch before after = after r refl
  settled-IsSolvent (err n) ch before after = before
  settled-IsSolvent abort ch before after = before

  -- For tokens and wallets that meet IsSip010, if the escrow holds at least what it owes in
  -- every token (players' balances, two stakes for each active game, fees not swept), then it
  -- still does after any sequence of transactions sent to it by others, those that fail
  -- included.
  pub run-IsSolvent :
      (calls : List (Env × Call)) (ch : Chain ext)
      → AllFromOthers contract calls
      → IsSolvent ext contract ch
      → IsSolvent ext contract (run c ext calls ch)
  unfolding run
  run-IsSolvent [] ch others solvent = solvent
  run-IsSolvent ((env, call) ∷ calls) ch (here, other, others) solvent =
      run-IsSolvent calls (settled ch (exec c ext env call ch)) others (
        settled-IsSolvent (exec c ext env call ch) ch solvent
          (λ r e. exec_here env here call ch other solvent e))
    where
      exec_here :
          (env : Env)
          → env.contract ≡ contract
          → (call : Call) (ch : Chain ext) {r : Value × Chain ext} → env.tx_sender ≢ contract
          → IsSolvent ext contract ch
          → exec c ext env call ch ≡ ok r
          → IsSolvent ext contract r.1
      exec_here env here call ch {r} other solvent e =
          subst (λ x. IsSolvent ext x r.1) here
            (exec-IsSolvent c ext env (subst (IsSip010 ext) (sym here) laws) call ch
              (subst (λ x. env.tx_sender ≢ x) (sym here) other)
              (subst (λ x. IsSolvent ext x ch) (sym here) solvent) e)
