-- ===== src/Tests/Wager.antt =====
-- The theorems on game-wager-v2.clar at concrete inputs.
use pillar_wallets_xyz.Base.{
  arith, ℕ, ◌≡◌, ◌≢◌, refl, String, string_eq, bytes_eq, nat_eq, true, false, List, [], ◌∷◌, Bytes,
  none, some, insert, lookup, ==_neq,
}
use pillar_wallets_xyz.Base.Keys.{sum_by}
use pillar_wallets_xyz.Clarity.Outcome.{Outcome, ok, err, abort, add_uint}
use pillar_wallets_xyz.Clarity.Value.{Value, uint, bool}
use pillar_wallets_xyz.Encoding.Hex.{hex_buffer, strip_hex, hex_value, from_hex, to_hex, hex_digit}
use pillar_wallets_xyz.Encoding.Base64.{base64url, to_base64, strip_padding, url_safe, base64_char}
use pillar_wallets_xyz.Webauthn.Verifier.{
  get_rp_id_hash, is_user_verified, get_flags_byte, verify_webauthn_signature,
  compute_signed_digest, compute_client_data_hash, base64url_32, byte_at, enc3, enc2, b64_char,
}
use pillar_wallets_xyz.Webauthn.Signer.{
  assertion_over, build_authenticator_data, client_data_suffix, utf8,
}
use pillar_wallets_xyz.Wager.State.{
  Game, active, cancelled, initial, get_balance, get_game, get_registered_wallet, is_signature_used,
  is_token_whitelisted, get_accumulated_fees, key_eq,
}
use pillar_wallets_xyz.Wager.Signature.{SigAuth, consume_signature}
use pillar_wallets_xyz.Wager.Hashes.{
  get_domain_hash, message_hash, build_wager_hash, build_withdraw_hash,
}
use pillar_wallets_xyz.Wager.Escrow.{
  Env, Chain, Call, deposits, sets_token_whitelist, creates_game, exec, run, create_game, withdraw,
  debit_balance, add_fees, fee_of, resolve_game, cancel_game, is_active,
}
use pillar_wallets_xyz.Wager.Owed.{owed}
use pillar_wallets_xyz.Wager.Solvency.{IsSolvent, run-IsSolvent}
use pillar_wallets_xyz.Wager.Invariant.{IsValid, initial-IsValid, run-IsValid}
use pillar_wallets_xyz.Wager.Accounting.{resolve_game-owed, cancel_game-owed}
use pillar_wallets_xyz.Wager.History.{first, second, create_game-once, withdraw-once, run-get_game}
use pillar_wallets_xyz.Simulation.Accepted.{sig_of}
use pillar_wallets_xyz.Tests.Toy.{toy, encode, encode_fields}
use pillar_wallets_xyz.Tests.Ledger.{ledger, ledger-IsSip010}

abbrev env_of : String → Env
env_of sender = record {
  chain = 1;
  contract = "escrow";
  deployer = "deployer";
  tx_sender = sender;
  burn_block_height = 10;
}

abbrev key_a : Bytes
key_a = toy.public_key (1 ∷ [])

abbrev key_b : Bytes
key_b = toy.public_key (2 ∷ [])

abbrev deployed : Chain ledger
unfolding initial
deployed = record { wager = initial "deployer"; ledger = λ t. 0 }

abbrev calls : List (Env × Call)
calls =
    (env_of "deployer", sets_token_whitelist "gold" true)
    ∷ (env_of "someone", deposits "gold" 70 key_a)
    ∷ (env_of "someone", deposits "silver" 70 key_a)
    ∷ []

run-IsSolvent_example : IsSolvent ledger "escrow" (run toy ledger calls deployed)
unfolding owed get_accumulated_fees lookup sum_by initial deployed
run-IsSolvent_example =
    run-IsSolvent toy ledger "escrow" (ledger-IsSip010 "escrow") calls deployed
      (
        refl,
        ==_neq "escrow" "deployer" refl,
        (refl, ==_neq "escrow" "someone" refl, (refl, ==_neq "escrow" "someone" refl, tt)),
      )
      (λ t. omega arith)

run-IsValid_example : IsValid (run toy ledger calls deployed).wager
unfolding deployed
run-IsValid_example = run-IsValid toy ledger calls deployed (initial-IsValid "deployer")

-- Both players have 70 of gold.
abbrev funded : Chain ledger
funded = record {
  wager = record {
    oracle = "oracle";
    game_nonce = 4;
    fee_rate = 500;
    withdraw_fee_rate = 100;
    treasury = "deployer";
    balances =
        (record { pubkey = key_a; token = "gold" }, 70)
        ∷ (record { pubkey = key_b; token = "gold" }, 70)
        ∷ [];
    used_signatures = [];
    games = (3, old_game) ∷ [];
    accumulated_fees = [];
    whitelisted_tokens = ("gold", true) ∷ [];
    pubkey_wallet = [];
  };
  ledger = λ t. 140;
}
  where
    old_game : Game
    old_game = record {
      player_a = key_a;
      player_b = key_b;
      token = "gold";
      wager_amount = 20;
      status = active;
      winner = none;
      created_at = 0;
    }

abbrev signed : Bytes → Bytes → ℕ → SigAuth
unfolding assertion_over
signed key hash id =
    sig_of id (assertion_over toy hash key (build_authenticator_data toy) client_data_suffix)

abbrev wager_by : Bytes → Bytes → SigAuth
wager_by key opponent = signed key (build_wager_hash toy 1 "escrow" 1 opponent "gold" 50) 1

abbrev get_ok {ℓ} : {A : Type ℓ} → A → Outcome A → A
get_ok a (ok b) = b
get_ok a (err e) = a
get_ok a abort = a

abbrev new_game_call : Call
new_game_call =
    creates_game key_a key_b "gold" 50 (wager_by (1 ∷ []) key_b) (wager_by (2 ∷ []) key_a)

abbrev after_create : Value × Chain ledger
after_create = get_ok (bool false, funded) (exec toy ledger (env_of "oracle") new_game_call funded)

resolve_game-owed_example :
    owed "gold"
      (get_ok (bool false, funded.wager) (resolve_game (env_of "oracle") 3 key_b funded.wager)).1
    ≡ owed "gold" funded.wager
unfolding resolve_game get_game lookup get_balance get_accumulated_fees
resolve_game-owed_example = resolve_game-owed "gold" (env_of "oracle") 3 key_b funded.wager refl

cancel_game-owed_example :
    owed "gold" (get_ok (bool false, funded.wager) (cancel_game (env_of "oracle") 3 funded.wager)).1
    ≡ owed "gold" funded.wager
unfolding cancel_game get_game lookup get_balance get_accumulated_fees insert
cancel_game-owed_example = cancel_game-owed "gold" (env_of "oracle") 3 funded.wager refl

create_game-once_example :
    create_game toy
      (env_of "oracle")
      key_b
      key_a
      "gold"
      50
      (wager_by (2 ∷ []) key_a)
      (wager_by (1 ∷ []) key_b)
      (run toy ledger calls after_create.1).wager
    ≢ ok (uint 5, funded.wager)
unfolding exec create_game get_balance lookup insert is_token_whitelisted is_signature_used
    consume_signature get_rp_id_hash is_user_verified get_flags_byte verify_webauthn_signature
    compute_signed_digest compute_client_data_hash base64url_32 byte_at enc3 enc2 b64_char
    hex_buffer encode encode_fields strip_hex hex_value from_hex to_hex hex_digit assertion_over
    build_authenticator_data client_data_suffix utf8 base64url to_base64 build_wager_hash
    message_hash get_domain_hash debit_balance signed strip_padding url_safe base64_char add_uint
create_game-once_example =
    create_game-once toy ledger (env_of "oracle") (env_of "oracle") key_a key_b key_b key_a "gold"
      50 (wager_by (1 ∷ []) key_b) (wager_by (2 ∷ []) key_a) (wager_by (2 ∷ []) key_a)
      (wager_by (1 ∷ []) key_b) first second calls funded after_create (uint 5, funded.wager) refl
      refl refl refl

abbrev withdraw_by : Bytes → SigAuth
withdraw_by key = signed key (build_withdraw_hash toy 1 "escrow" 7 30 "me" "gold") 7

abbrev after_withdraw : Value × Chain ledger
after_withdraw =
    get_ok (bool false, funded)
      (withdraw toy ledger (env_of "anyone") "gold" "Gold" 30 "me" key_a (withdraw_by (1 ∷ []))
        funded)

withdraw-once_example :
    withdraw toy ledger
      (env_of "other")
      "gold"
      "Gold"
      30
      "me"
      key_a
      (withdraw_by (1 ∷ []))
      (run toy ledger [] after_withdraw.1)
    ≢ ok (bool true, funded)
unfolding run withdraw get_balance lookup insert get_registered_wallet get_accumulated_fees
    is_signature_used add_fees fee_of consume_signature get_rp_id_hash is_user_verified
    get_flags_byte verify_webauthn_signature compute_signed_digest compute_client_data_hash
    base64url_32 byte_at enc3 enc2 b64_char hex_buffer encode encode_fields strip_hex hex_value
    from_hex to_hex hex_digit assertion_over build_authenticator_data client_data_suffix utf8
    base64url to_base64 build_withdraw_hash message_hash get_domain_hash debit_balance signed
    strip_padding url_safe base64_char
withdraw-once_example =
    withdraw-once toy ledger (env_of "anyone") (env_of "other") "gold" "Gold" "Gold" 30 "me" "me"
      key_a key_a (withdraw_by (1 ∷ [])) (withdraw_by (1 ∷ [])) [] funded after_withdraw
      (bool true, funded) refl refl refl refl refl

-- The game of `funded`, called off.
abbrev over : Game
over = record {
  player_a = key_a;
  player_b = key_b;
  token = "gold";
  wager_amount = 20;
  status = cancelled;
  winner = none;
  created_at = 0;
}

abbrev finished : Chain ledger
finished = record { wager = record funded.wager { games = (3, over) ∷ [] }; ledger = λ t. 140 }

finished-IsValid : IsValid finished.wager
finished-IsValid = record {
  fee_rate = omega arith;
  withdraw_fee_rate = omega arith;
  games = (
    record { numbered = omega arith; distinct = refl; positive = omega arith; winner_fits = refl },
    tt,
  );
}

run-get_game_example : get_game 3 (run toy ledger calls finished).wager ≡ some over
unfolding is_active get_game lookup
run-get_game_example = run-get_game toy ledger 3 over calls finished finished-IsValid refl refl
