-- ===== src/Wager/Escrow.antt =====
-- The entry points of game-wager-v2.clar. Each takes the chain and ends in `ok` with its reply
-- and the new chain, in `(err uN)`, or in an abort; `print` events are left out.
use pillar_wallets_xyz.Base.{
  ℕ, ◌/◌, String, Bool, true, false, not, ◌||◌, none, some, List, [], ◌∷◌, Bytes, bytes_beq, leb,
  ltb, if◌then◌else◌, ◌==◌, nat_eq, string_eq, bytes_eq, insert,
}
use pillar_wallets_xyz.Clarity.Outcome.{
  Outcome, ok, err, abort, ◌>>=◌, ◌>>◌, asserts, unwrap, add_uint, mul_uint, sub_uint,
}
use pillar_wallets_xyz.Clarity.Value.{Value, uint, bool}
use pillar_wallets_xyz.Webauthn.Crypto.{Crypto}
use pillar_wallets_xyz.Wager.State.{
  State, Game, Status, active, resolved, cancelled, default_to, get_balance, get_game,
  get_accumulated_fees, is_token_whitelisted, get_registered_wallet, key_eq,
}
use pillar_wallets_xyz.Wager.State.Code
use pillar_wallets_xyz.Wager.Hashes.{
  build_register_wallet_hash, build_withdraw_hash, build_wager_hash,
}
use pillar_wallets_xyz.Wager.Signature.{SigAuth, consume_signature}
use pillar_wallets_xyz.Wager.External.{External}

-- What a transaction sees: the deployer is the constant `DEPLOYER`.
pub record Env : Type 0 where
  pub chain : ℕ
  pub contract : String
  pub deployer : String
  pub tx_sender : String
  pub burn_block_height : ℕ

pub record Chain (ext : External) : Type 0 where
  pub wager : State
  pub ledger : ext.Ledger

unfoldable pub is_active : Status → Bool
is_active active = true
is_active resolved = false
is_active cancelled = false

-- `(/ (* amount rate) u10000)`
unfoldable pub fee_of : ℕ → ℕ → Outcome ℕ
unfolding mul_uint
fee_of amount rate = do product ← mul_uint amount rate; ok (product / 10000)

unfoldable pub credit_balance : Bytes → String → ℕ → State → Outcome State
unfolding add_uint
credit_balance pubkey token amount s = do
  total ← add_uint (get_balance pubkey token s) amount
  ok (record s { balances = insert (record { pubkey = pubkey; token = token }) total s.balances })

unfoldable pub debit_balance : Bytes → String → ℕ → State → Outcome State
unfolding sub_uint
debit_balance pubkey token amount s = do
  asserts (leb amount (get_balance pubkey token s)) Code.insufficient_balance
  rest ← sub_uint (get_balance pubkey token s) amount
  ok (record s { balances = insert (record { pubkey = pubkey; token = token }) rest s.balances })

-- `(map-set accumulated-fees token (+ (get-accumulated-fees token) fee))`
unfoldable pub add_fees : String → ℕ → State → Outcome State
unfolding add_uint
add_fees token fee s = do
  total ← add_uint (get_accumulated_fees token s) fee
  ok (record s { accumulated_fees = insert token total s.accumulated_fees })

-- `(or (is-eq tx-sender (var-get oracle)) (> burn-block-height (+ created-at GAME_TIMEOUT)))`:
-- the sum is only formed for a sender other than the oracle.
unfoldable pub may_cancel : Env → Game → State → Outcome Bool
unfolding add_uint
may_cancel env game s =
    let timed_out = (do
      deadline ← add_uint game.created_at Code.game_timeout
      ok (ltb deadline env.burn_block_height)) in
    if env.tx_sender == s.oracle then ok true else timed_out

-- The steps of the entry points that touch the contract's own state alone.
module _ (c : Crypto) (env : Env) where
  unfoldable pub create_game :
      Bytes → Bytes → String → ℕ → SigAuth → SigAuth → State → Outcome (Value × State)
  unfolding debit_balance
  create_game player_a player_b token wager_amount sig_a sig_b s = do
    let game_id = s.game_nonce
    let hash_a = build_wager_hash c env.chain env.contract sig_a.auth_id player_b token wager_amount
    let hash_b = build_wager_hash c env.chain env.contract sig_b.auth_id player_a token wager_amount
    asserts (env.tx_sender == s.oracle) Code.not_oracle
    asserts (ltb 0 wager_amount) Code.invalid_amount
    asserts (not (bytes_beq player_a player_b)) Code.same_player
    asserts (is_token_whitelisted token s) Code.token_not_whitelisted
    s1 ← consume_signature c hash_a player_a sig_a s
    s2 ← consume_signature c hash_b player_b sig_b s1
    s3 ← debit_balance player_a token wager_amount s2
    s4 ← debit_balance player_b token wager_amount s3
    let game : Game = record {
      player_a = player_a;
      player_b = player_b;
      token = token;
      wager_amount = wager_amount;
      status = active;
      winner = none;
      created_at = env.burn_block_height;
    }
    nonce ← add_uint game_id 1
    ok (uint game_id, record s4 { game_nonce = nonce; games = insert game_id game s4.games })

-- The body of `cancel-game` once its guards have passed.
unfoldable pub refund_players : ℕ → Game → ℕ → ℕ → State → Outcome (Value × State)
unfolding mul_uint credit_balance add_fees
refund_players game_id game fee refund s = do
  s1 ← credit_balance game.player_a game.token refund s
  s2 ← credit_balance game.player_b game.token refund s1
  fees ← mul_uint fee 2
  s3 ← add_fees game.token fees s2
  let closed = record game { status = cancelled }
  ok (bool true, record s3 { games = insert game_id closed s3.games })

module _ (env : Env) where
  unfoldable pub resolve_game : ℕ → Bytes → State → Outcome (Value × State)
  unfolding mul_uint fee_of sub_uint credit_balance add_fees is_active
  resolve_game game_id winner s = do
    game ← unwrap (get_game game_id s) Code.game_not_found
    pot ← mul_uint game.wager_amount 2
    fee ← fee_of pot s.fee_rate
    payout ← sub_uint pot fee
    asserts (env.tx_sender == s.oracle) Code.not_oracle
    asserts (is_active game.status) Code.game_not_active
    asserts (bytes_beq winner game.player_a || bytes_beq winner game.player_b) Code.invalid_winner
    s1 ← credit_balance winner game.token payout s
    s2 ← add_fees game.token fee s1
    let closed = record game { status = resolved; winner = some winner }
    ok (bool true, record s2 { games = insert game_id closed s2.games })

  unfoldable pub cancel_game : ℕ → State → Outcome (Value × State)
  unfolding fee_of sub_uint is_active may_cancel refund_players
  cancel_game game_id s = do
    game ← unwrap (get_game game_id s) Code.game_not_found
    fee ← fee_of game.wager_amount s.withdraw_fee_rate
    refund ← sub_uint game.wager_amount fee
    asserts (is_active game.status) Code.game_not_active
    allowed ← may_cancel env game s
    asserts allowed Code.game_not_expired
    refund_players game_id game fee refund s

  unfoldable pub set_oracle : String → State → Outcome (Value × State)
  set_oracle new_oracle s = do
    asserts (env.tx_sender == env.deployer) Code.not_deployer
    ok (bool true, record s { oracle = new_oracle })

  unfoldable pub set_fee_rate : ℕ → State → Outcome (Value × State)
  set_fee_rate new_fee_rate s = do
    asserts (env.tx_sender == env.deployer) Code.not_deployer
    asserts (leb new_fee_rate 2000) Code.invalid_amount
    ok (bool true, record s { fee_rate = new_fee_rate })

  unfoldable pub set_withdraw_fee_rate : ℕ → State → Outcome (Value × State)
  set_withdraw_fee_rate new_fee_rate s = do
    asserts (env.tx_sender == env.deployer) Code.not_deployer
    asserts (leb new_fee_rate 1000) Code.invalid_amount
    ok (bool true, record s { withdraw_fee_rate = new_fee_rate })

  unfoldable pub set_treasury : String → State → Outcome (Value × State)
  set_treasury new_treasury s = do
    asserts (env.tx_sender == env.deployer) Code.not_deployer
    ok (bool true, record s { treasury = new_treasury })

  unfoldable pub set_token_whitelist : String → Bool → State → Outcome (Value × State)
  set_token_whitelist token enabled s = do
    asserts (env.tx_sender == env.deployer) Code.not_deployer
    ok (bool true, record s { whitelisted_tokens = insert token enabled s.whitelisted_tokens })

-- The entry points that call a token or a wallet.
module _ (c : Crypto) (ext : External) (env : Env) where
  unfoldable pub deposit : String → ℕ → Bytes → Chain ext → Outcome (Value × Chain ext)
  unfolding credit_balance
  deposit token amount pubkey ch = do
    asserts (ltb 0 amount) Code.invalid_amount
    asserts (is_token_whitelisted token ch.wager) Code.token_not_whitelisted
    ledger ← ext.transfer token amount env.tx_sender env.contract ch.ledger
    s ← credit_balance pubkey token amount ch.wager
    ok (bool true, record { wager = s; ledger = ledger })

  unfoldable pub register_wallet :
      String → Bytes → SigAuth → Chain ext → Outcome (Value × Chain ext)
  register_wallet wallet pubkey sig ch = do
    let hash = build_register_wallet_hash c env.chain env.contract sig.auth_id wallet
    s ← consume_signature c hash pubkey sig ch.wager
    ledger ← ext.is_admin_pubkey wallet pubkey ch.ledger
    ok (
      bool true,
      record {
        wager = record s { pubkey_wallet = insert pubkey wallet s.pubkey_wallet };
        ledger = ledger;
      },
    )

  unfoldable pub withdraw :
      String → String → ℕ → String → Bytes → SigAuth → Chain ext → Outcome (Value × Chain ext)
  unfolding fee_of sub_uint debit_balance add_fees
  withdraw token token_name amount recipient pubkey sig ch = do
    let actual_recipient = default_to recipient (get_registered_wallet pubkey ch.wager)
    let hash =
        build_withdraw_hash c env.chain env.contract sig.auth_id amount actual_recipient token
    fee ← fee_of amount ch.wager.withdraw_fee_rate
    payout ← sub_uint amount fee
    asserts (ltb 0 amount) Code.invalid_amount
    s1 ← consume_signature c hash pubkey sig ch.wager
    s2 ← debit_balance pubkey token amount s1
    s3 ← add_fees token fee s2
    ledger ←
        ext.transfer_as_contract token token_name payout env.contract actual_recipient ch.ledger
    ok (bool true, record { wager = s3; ledger = ledger })

  unfoldable pub sweep_fees : String → String → Chain ext → Outcome (Value × Chain ext)
  sweep_fees token token_name ch = do
    let amount = get_accumulated_fees token ch.wager
    asserts (env.tx_sender == env.deployer) Code.not_deployer
    asserts (ltb 0 amount) Code.invalid_amount
    ledger ←
        ext.transfer_as_contract token token_name amount env.contract ch.wager.treasury ch.ledger
    ok (
      bool true,
      record {
        wager = record ch.wager { accumulated_fees = insert token 0 ch.wager.accumulated_fees };
        ledger = ledger;
      },
    )

pub data Call : Type 0 where
  deposits : String → ℕ → Bytes → Call
  registers_wallet : String → Bytes → SigAuth → Call
  withdraws : String → String → ℕ → String → Bytes → SigAuth → Call
  creates_game : Bytes → Bytes → String → ℕ → SigAuth → SigAuth → Call
  resolves_game : ℕ → Bytes → Call
  cancels_game : ℕ → Call
  sets_oracle : String → Call
  sets_fee_rate : ℕ → Call
  sets_withdraw_fee_rate : ℕ → Call
  sets_treasury : String → Call
  sets_token_whitelist : String → Bool → Call
  sweeps_fees : String → String → Call

module _ (c : Crypto) (ext : External) (env : Env) where
  -- An entry point that leaves the tokens alone.
  abbrev pub on_state : (State → Outcome (Value × State)) → Chain ext → Outcome (Value × Chain ext)
  on_state f ch = do r ← f ch.wager; ok (r.0, record { wager = r.1; ledger = ch.ledger })

  unfoldable pub exec : Call → Chain ext → Outcome (Value × Chain ext)
  exec (deposits token amount pubkey) ch = deposit c ext env token amount pubkey ch
  exec (registers_wallet wallet pubkey sig) ch = register_wallet c ext env wallet pubkey sig ch
  exec (withdraws token name amount recipient pubkey sig) ch =
      withdraw c ext env token name amount recipient pubkey sig ch
  exec (creates_game a b token amount sig_a sig_b) ch =
      on_state (create_game c env a b token amount sig_a sig_b) ch
  exec (resolves_game id winner) ch = on_state (resolve_game env id winner) ch
  exec (cancels_game id) ch = on_state (cancel_game env id) ch
  exec (sets_oracle p) ch = on_state (set_oracle env p) ch
  exec (sets_fee_rate r) ch = on_state (set_fee_rate env r) ch
  exec (sets_withdraw_fee_rate r) ch = on_state (set_withdraw_fee_rate env r) ch
  exec (sets_treasury p) ch = on_state (set_treasury env p) ch
  exec (sets_token_whitelist t e) ch = on_state (set_token_whitelist env t e) ch
  exec (sweeps_fees token name) ch = sweep_fees c ext env token name ch

-- A transaction that does not end in `ok` changes nothing.
abbrev pub settled {ℓ} : {A : Type ℓ} → A → Outcome (Value × A) → A
settled a (ok (v, b)) = b
settled a (err e) = a
settled a abort = a

-- Transactions one after another, each with its own sender and block height.
unfoldable pub run : (c : Crypto) (ext : External) → List (Env × Call) → Chain ext → Chain ext
run c ext [] ch = ch
run c ext ((env, call) ∷ calls) ch = run c ext calls (settled ch (exec c ext env call ch))
