-- ===== src/Wager/Entry/Tokens.antt =====
-- `deposit`, `register-wallet`, `withdraw` and `sweep-fees`.
use mathlib.Core.Path.{subst, ap, sym, ◌∙◌}
use pillar_wallets_xyz.Base.{
  arith, ℕ, ◌+◌, ◌*◌, ◌/◌, ◌≤◌, ◌≡◌, String, true, false, Bytes, ltb, insert, nat_eq, string_eq,
  bytes_eq, ◌==◌,
}
use pillar_wallets_xyz.Clarity.Outcome.{ok, sub_uint}
use pillar_wallets_xyz.Clarity.Value.{Value}
use pillar_wallets_xyz.Webauthn.Crypto.{Crypto}
use pillar_wallets_xyz.Wager.State.{
  State, get_balance, get_accumulated_fees, is_signature_used, is_token_whitelisted,
  get_registered_wallet, default_to, key_eq,
}
use pillar_wallets_xyz.Wager.Hashes.{build_register_wallet_hash, build_withdraw_hash}
use pillar_wallets_xyz.Wager.Signature.{SigAuth, verify_signature, consume_signature}
use pillar_wallets_xyz.Wager.External.{External}
use pillar_wallets_xyz.Wager.Escrow.{
  Env, Chain, fee_of, credit_balance, debit_balance, add_fees, deposit, register_wallet, withdraw,
  sweep_fees,
}
use pillar_wallets_xyz.Wager.Effects.{
  fee_of-ok, ok_inj, bind-ok, asserts-ok, sub_uint-ok, credit_balance-ok, debit_balance-ok,
  add_fees-ok, consume_signature-ok, credited, debited, charged, mark_used, set_fees,
}

module _ (c : Crypto) (ext : External) (env : Env) (ch : Chain ext) where
  pub record IsDeposited (token : String) (amount : ℕ) (pubkey : Bytes) (r : Value × Chain ext)
      : Type 0 where
    pub positive : ltb 0 amount ≡ true
    pub whitelisted : is_token_whitelisted token ch.wager ≡ true
    pub moved : ext.transfer token amount env.tx_sender env.contract ch.ledger ≡ ok r.1.ledger
    pub next : r.1.wager ≡ credited pubkey token amount ch.wager

  pub deposit-ok :
      (token : String) (amount : ℕ) (pubkey : Bytes) {r : Value × Chain ext}
      → deposit c ext env token amount pubkey ch ≡ ok r
      → IsDeposited token amount pubkey r
  unfolding deposit
  deposit-ok token amount pubkey {r} e =
      let (positive, e1) = asserts-ok (ltb 0 amount) _ _ e in
      let (listed, e2) = asserts-ok (is_token_whitelisted token ch.wager) _ _ e1 in
      let (ledger, moved, e3) =
        bind-ok (ext.transfer token amount env.tx_sender env.contract ch.ledger) _ e2 in
      let (s, added, last) = bind-ok (credit_balance pubkey token amount ch.wager) _ e3 in
      let eq = ok_inj last in
      record {
        positive = positive;
        whitelisted = listed;
        moved = moved ∙ ap (λ (p : Value × Chain ext). ok p.1.ledger) eq;
        next =
            ap (λ (p : Value × Chain ext). p.1.wager) (sym eq)
            ∙ credit_balance-ok pubkey token amount ch.wager added;
      }

  abbrev pub wallet_set : Bytes → String → State → State
  wallet_set pubkey wallet s = record s { pubkey_wallet = insert pubkey wallet s.pubkey_wallet }

  pub record IsRegistered (wallet : String) (pubkey : Bytes) (sig : SigAuth) (r : Value × Chain ext)
      : Type 0 where
    pub signed :
        verify_signature c
          (build_register_wallet_hash c env.chain env.contract sig.auth_id wallet)
          pubkey
          sig
        ≡ ok true
    pub fresh :
        is_signature_used
          (build_register_wallet_hash c env.chain env.contract sig.auth_id wallet)
          ch.wager
        ≡ false
    pub admin : ext.is_admin_pubkey wallet pubkey ch.ledger ≡ ok r.1.ledger
    pub next :
        r.1.wager
        ≡ wallet_set pubkey wallet (
            mark_used
              (build_register_wallet_hash c env.chain env.contract sig.auth_id wallet)
              pubkey
              ch.wager)

  pub register_wallet-ok :
      (wallet : String) (pubkey : Bytes) (sig : SigAuth) {r : Value × Chain ext}
      → register_wallet c ext env wallet pubkey sig ch ≡ ok r
      → IsRegistered wallet pubkey sig r
  unfolding register_wallet
  register_wallet-ok wallet pubkey sig {r} e =
      let hash = build_register_wallet_hash c env.chain env.contract sig.auth_id wallet in
      let (s, consumed, e1) = bind-ok (consume_signature c hash pubkey sig ch.wager) _ e in
      let (ledger, asked, last) = bind-ok (ext.is_admin_pubkey wallet pubkey ch.ledger) _ e1 in
      let (signed, fresh, marked) = consume_signature-ok c hash pubkey sig ch.wager consumed in
      let eq = ok_inj last in
      record {
        signed = signed;
        fresh = fresh;
        admin = asked ∙ ap (λ (p : Value × Chain ext). ok p.1.ledger) eq;
        next =
            ap (λ (p : Value × Chain ext). p.1.wager) (sym eq)
            ∙ ap (wallet_set pubkey wallet) marked;
      }

  -- Where a withdrawal of `pubkey` goes, and what its owner has signed.
  abbrev pub recipient_of : String → Bytes → String
  recipient_of recipient pubkey = default_to recipient (get_registered_wallet pubkey ch.wager)

  abbrev pub withdrawal_hash : String → ℕ → String → Bytes → SigAuth → Bytes
  withdrawal_hash token amount recipient pubkey sig =
      build_withdraw_hash c env.chain env.contract sig.auth_id amount
        (recipient_of recipient pubkey) token

  pub record IsWithdrawn (token name : String) (amount : ℕ) (recipient : String) (pubkey : Bytes)
      (sig : SigAuth) (r : Value × Chain ext) : Type 0 where
    pub fee : ℕ
    pub payout : ℕ
    pub fee_is : fee ≡ amount * ch.wager.withdraw_fee_rate / 10000
    pub payout_is : payout + fee ≡ amount
    pub positive : ltb 0 amount ≡ true
    pub signed :
        verify_signature c (withdrawal_hash token amount recipient pubkey sig) pubkey sig ≡ ok true
    pub fresh :
        is_signature_used (withdrawal_hash token amount recipient pubkey sig) ch.wager ≡ false
    pub funds : amount ≤ get_balance pubkey token ch.wager
    pub moved :
        ext.transfer_as_contract token name payout env.contract
          (recipient_of recipient pubkey)
          ch.ledger
        ≡ ok r.1.ledger
    pub next :
        r.1.wager
        ≡ charged token fee (
            debited pubkey token amount
              (mark_used (withdrawal_hash token amount recipient pubkey sig) pubkey ch.wager))

  pub withdraw-ok :
      (token name : String) (amount : ℕ) (recipient : String) (pubkey : Bytes) (sig : SigAuth)
      {r : Value × Chain ext}
      → withdraw c ext env token name amount recipient pubkey sig ch ≡ ok r
      → IsWithdrawn token name amount recipient pubkey sig r
  unfolding withdraw get_balance
  withdraw-ok token name amount recipient pubkey sig {r} e =
      let hash = withdrawal_hash token amount recipient pubkey sig in
      let to = recipient_of recipient pubkey in
      let (fee, taken, e1) = bind-ok (fee_of amount ch.wager.withdraw_fee_rate) _ e in
      let (payout, left, e2) = bind-ok (sub_uint amount fee) _ e1 in
      let (positive, e3) = asserts-ok (ltb 0 amount) _ _ e2 in
      let (s1, consumed, e4) = bind-ok (consume_signature c hash pubkey sig ch.wager) _ e3 in
      let (s2, debit, e5) = bind-ok (debit_balance pubkey token amount s1) _ e4 in
      let (s3, fees, e6) = bind-ok (add_fees token fee s2) _ e5 in
      let (ledger, moved, last) =
        bind-ok (ext.transfer_as_contract token name payout env.contract to ch.ledger) _ e6 in
      let (signed, fresh, eq1) = consume_signature-ok c hash pubkey sig ch.wager consumed in
      let (funds, eq2) = debit_balance-ok pubkey token amount s1 debit in
      let eq3 = add_fees-ok token fee s2 fees in
      let (payout_eq, fits) = sub_uint-ok amount fee left in
      let eq = ok_inj last in
      record {
        fee = fee;
        payout = payout;
        fee_is = fee_of-ok amount ch.wager.withdraw_fee_rate taken;
        payout_is = omega (arith, payout_eq, fits);
        positive = positive;
        signed = signed;
        fresh = fresh;
        funds = subst (λ x. amount ≤ get_balance pubkey token x) eq1 funds;
        moved = moved ∙ ap (λ (p : Value × Chain ext). ok p.1.ledger) eq;
        next =
            ap (λ (p : Value × Chain ext). p.1.wager) (sym eq)
            ∙ (eq3 ∙ ap (charged token fee) (eq2 ∙ ap (debited pubkey token amount) eq1));
      }

  pub record IsSwept (token name : String) (r : Value × Chain ext) : Type 0 where
    pub by_deployer : env.tx_sender == env.deployer ≡ true
    pub moved :
        ext.transfer_as_contract token name
          (get_accumulated_fees token ch.wager)
          env.contract
          ch.wager.treasury
          ch.ledger
        ≡ ok r.1.ledger
    pub next : r.1.wager ≡ set_fees token 0 ch.wager

  pub sweep_fees-ok :
      (token name : String) {r : Value × Chain ext}
      → sweep_fees c ext env token name ch ≡ ok r
      → IsSwept token name r
  unfolding sweep_fees
  sweep_fees-ok token name {r} e =
      let amount = get_accumulated_fees token ch.wager in
      let (by_deployer, e1) = asserts-ok (env.tx_sender == env.deployer) _ _ e in
      let (positive, e2) = asserts-ok (ltb 0 amount) _ _ e1 in
      let (ledger, moved, last) =
        bind-ok
          (ext.transfer_as_contract token name amount env.contract ch.wager.treasury ch.ledger) _
          e2 in
      let eq = ok_inj last in
      record {
        by_deployer = by_deployer;
        moved = moved ∙ ap (λ (p : Value × Chain ext). ok p.1.ledger) eq;
        next = ap (λ (p : Value × Chain ext). p.1.wager) (sym eq);
      }
