-- ===== src/Wager/Entry/Create.antt =====
-- `create-game`.
use mathlib.Core.Path.{subst, ap, ap₂, sym, ◌∙◌}
use pillar_wallets_xyz.Base.{
  ℕ, ◌+◌, ◌≤◌, ◌≡◌, String, true, false, not, none, Bytes, ltb, bytes_beq, insert, nat_eq,
  string_eq, bytes_eq, ◌==◌,
}
use pillar_wallets_xyz.Clarity.Outcome.{ok, add_uint}
use pillar_wallets_xyz.Clarity.Value.{Value}
use pillar_wallets_xyz.Webauthn.Crypto.{Crypto}
use pillar_wallets_xyz.Wager.State.{
  State, Game, active, get_balance, is_signature_used, is_token_whitelisted, key_eq,
}
use pillar_wallets_xyz.Wager.Hashes.{build_wager_hash}
use pillar_wallets_xyz.Wager.Signature.{SigAuth, verify_signature, consume_signature}
use pillar_wallets_xyz.Wager.Escrow.{Env, debit_balance, create_game}
use pillar_wallets_xyz.Wager.Effects.{
  ok_inj, bind-ok, asserts-ok, add_uint-ok, debit_balance-ok, consume_signature-ok, not-false,
  debited, mark_used,
}

abbrev pub new_game : Env → Bytes → Bytes → String → ℕ → Game
new_game env a b token wager_amount = record {
  player_a = a;
  player_b = b;
  token = token;
  wager_amount = wager_amount;
  status = active;
  winner = none;
  created_at = env.burn_block_height;
}

-- A created game.
module _ (c : Crypto) (env : Env) (a b : Bytes) (token : String) (wager_amount : ℕ)
    (sig_a sig_b : SigAuth) (s : State) where
  abbrev pub hash_of : ℕ → Bytes → Bytes
  hash_of auth_id opponent =
      build_wager_hash c env.chain env.contract auth_id opponent token wager_amount

  -- The state with the game, once the stakes are taken.
  abbrev pub opened : State → ℕ → State
  opened s4 nonce = record s4 {
    game_nonce = nonce;
    games = insert s.game_nonce (new_game env a b token wager_amount) s4.games;
  }

  -- The state once both stakes are taken.
  abbrev pub staked : State
  staked =
      let s2 = mark_used (hash_of sig_b.auth_id a) b (mark_used (hash_of sig_a.auth_id b) a s) in
      debited b token wager_amount (debited a token wager_amount s2)

  pub record IsCreated (r : Value × State) : Type 0 where
    pub by_oracle : env.tx_sender == s.oracle ≡ true
    pub positive : ltb 0 wager_amount ≡ true
    pub distinct : bytes_beq a b ≡ false
    pub whitelisted : is_token_whitelisted token s ≡ true
    pub signed_a : verify_signature c (hash_of sig_a.auth_id b) a sig_a ≡ ok true
    pub fresh_a : is_signature_used (hash_of sig_a.auth_id b) s ≡ false
    pub signed_b : verify_signature c (hash_of sig_b.auth_id a) b sig_b ≡ ok true
    pub fresh_b :
        is_signature_used (hash_of sig_b.auth_id a) (mark_used (hash_of sig_a.auth_id b) a s)
        ≡ false
    pub funds_a : wager_amount ≤ get_balance a token s
    pub funds_b : wager_amount ≤ get_balance b token (debited a token wager_amount s)
    pub next : r.1 ≡ opened staked (s.game_nonce + 1)

  pub create_game-ok :
      {r : Value × State}
      → create_game c env a b token wager_amount sig_a sig_b s ≡ ok r
      → IsCreated r
  unfolding create_game get_balance
  create_game-ok {r} e =
      let (by_oracle, e1) = asserts-ok (env.tx_sender == s.oracle) _ _ e in
      let (positive, e2) = asserts-ok (ltb 0 wager_amount) _ _ e1 in
      let (different, e3) = asserts-ok (not (bytes_beq a b)) _ _ e2 in
      let (listed, e4) = asserts-ok (is_token_whitelisted token s) _ _ e3 in
      let (s1, consumed_a, e5) =
        bind-ok (consume_signature c (hash_of sig_a.auth_id b) a sig_a s) _ e4 in
      let (s2, consumed_b, e6) =
        bind-ok (consume_signature c (hash_of sig_b.auth_id a) b sig_b s1) _ e5 in
      let (s3, debited_a, e7) = bind-ok (debit_balance a token wager_amount s2) _ e6 in
      let (s4, debited_b, e8) = bind-ok (debit_balance b token wager_amount s3) _ e7 in
      let (nonce, added, last) = bind-ok (add_uint s.game_nonce 1) _ e8 in
      let (signed_a, fresh_a, eq1) = consume_signature-ok c _ a sig_a s consumed_a in
      let (signed_b, fresh_b, eq2) = consume_signature-ok c _ b sig_b s1 consumed_b in
      let (funds_a, eq3) = debit_balance-ok a token wager_amount s2 debited_a in
      let (funds_b, eq4) = debit_balance-ok b token wager_amount s3 debited_b in
      let marked = eq2 ∙ ap (mark_used (hash_of sig_b.auth_id a) b) eq1 in
      let paid_a = eq3 ∙ ap (debited a token wager_amount) marked in
      let paid_b = eq4 ∙ ap (debited b token wager_amount) paid_a in
      let eq5 = add_uint-ok s.game_nonce 1 added in
      record {
        by_oracle = by_oracle;
        positive = positive;
        distinct = not-false _ different;
        whitelisted = listed;
        signed_a = signed_a;
        fresh_a = fresh_a;
        signed_b = signed_b;
        fresh_b = subst (λ t. is_signature_used (hash_of sig_b.auth_id a) t ≡ false) eq1 fresh_b;
        funds_a = subst (λ x. wager_amount ≤ get_balance a token x) marked funds_a;
        funds_b = subst (λ x. wager_amount ≤ get_balance b token x) paid_a funds_b;
        next = ap (λ (p : Value × State). p.1) (sym (ok_inj last)) ∙ ap₂ opened paid_b eq5;
      }
