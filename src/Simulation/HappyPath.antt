-- ===== src/Simulation/HappyPath.antt =====
-- simul-game-wager-v2.js: deposits, a game that player A wins, wallets, and a withdrawal.
use pillar_wallets_xyz.Base.{
  ℕ, String, Bytes, codes, take, List, [], ◌∷◌, ◌++◌, true, nat_beq, length, ◌&&◌, if◌then◌else◌,
  map,
}
use pillar_wallets_xyz.Base.Result.{Result, returned, thrown, ◌>>=◌}
use pillar_wallets_xyz.Clarity.Value.{uint, bool, buffer, principal, ascii}
use pillar_wallets_xyz.Encoding.Hex.{from_hex, to_hex, strip_hex, zero_x}
use pillar_wallets_xyz.Webauthn.Crypto.{Crypto}
use pillar_wallets_xyz.Webauthn.Signer.{
  Operation, SignedBundle, SignerError, build_signed_bundle, generate_keypair,
}
use pillar_wallets_xyz.Simulation.Builder.{
  BuilderCall, with_sender, add_reads, data_var, eval_readonly,
}
use pillar_wallets_xyz.Simulation.Common.{
  Bundle, BundleError, sig, deployer, pillar_trait_deployer, oracle, wager, token, test_wallet_a,
  test_wallet_b, challenge, spec_register_wallet, spec_wager, spec_withdraw, sig_auth_tuple,
  sig_auth_no_pubkey, deploy_contract, call_contract, call_wager, deposit_call,
}

abbrev pub mint_amount : ℕ
mint_amount = 10000000

abbrev pub deposit_amount : ℕ
deposit_amount = 1000000

abbrev pub wager_amount : ℕ
wager_amount = 500000

abbrev pub withdraw_amount : ℕ
withdraw_amount = 400000

unfoldable pub build_player_a_ops : Crypto → Bytes → List Operation
build_player_a_ops c pub_b_hex =
    let key = strip_hex pub_b_hex in
    record {
      auth_id = 1;
      label =
          codes
            "Player A · register-wallet -> SPV9K21TBFAK4KNRJXF5DFP8N7W46G4V9RCJDC22.test-wallet-a";
      challenge = challenge c (spec_register_wallet 1 test_wallet_a);
    }
    ∷ record {
      auth_id = 2;
      label = codes "Player A · wager 500000 GAME vs opponent 0x" ++ (take 12 key ++ codes "...");
      challenge = challenge c (spec_wager 2 key token wager_amount);
    }
    ∷ record {
      auth_id = 3;
      label =
          codes
            "Player A · withdraw 400000 GAME -> SPV9K21TBFAK4KNRJXF5DFP8N7W46G4V9RCJDC22.test-wallet-a";
      challenge = challenge c (spec_withdraw 3 withdraw_amount test_wallet_a token);
    }
    ∷ []

unfoldable pub build_player_b_ops : Crypto → Bytes → List Operation
build_player_b_ops c pub_a_hex =
    let key = strip_hex pub_a_hex in
    record {
      auth_id = 1;
      label =
          codes
            "Player B · register-wallet -> SPV9K21TBFAK4KNRJXF5DFP8N7W46G4V9RCJDC22.test-wallet-b";
      challenge = challenge c (spec_register_wallet 1 test_wallet_b);
    }
    ∷ record {
      auth_id = 2;
      label = codes "Player B · wager 500000 GAME vs opponent 0x" ++ (take 12 key ++ codes "...");
      challenge = challenge c (spec_wager 2 key token wager_amount);
    }
    ∷ []

-- One entry of the file that `--print-challenges` writes.
pub record ChallengeEntry : Type 0 where
  pub auth_id : ℕ
  pub label : Bytes
  pub challenge_hex : Bytes

pub record ChallengeBundle : Type 0 where
  pub wallet_principal : String
  pub rp_id : Bytes
  pub operations : List ChallengeEntry

pub data PrintError : Type 0 where
  bad_pubkey : PrintError

abbrev entry_of : Operation → ChallengeEntry
entry_of op = record {
  auth_id = op.auth_id;
  label = op.label;
  challenge_hex = zero_x (to_hex op.challenge);
}

abbrev challenge_bundle : List Operation → ChallengeBundle
challenge_bundle ops = record {
  wallet_principal = wager;
  rp_id = codes "fak.fun";
  operations = map entry_of ops;
}

-- `printChallenges`: what is written to the files of the two players.
unfoldable pub print_challenges :
    Crypto → Bytes → Bytes → Result PrintError (ChallengeBundle × ChallengeBundle)
unfolding strip_hex build_player_a_ops build_player_b_ops
print_challenges c pubkey_a_hex pubkey_b_hex =
    let pub_a = strip_hex pubkey_a_hex in
    let pub_b = strip_hex pubkey_b_hex in
    if nat_beq (length pub_a) 66 && nat_beq (length pub_b) 66
    then returned (
      challenge_bundle (build_player_a_ops c pub_b),
      challenge_bundle (build_player_b_ops c pub_a),
    )
    else thrown bad_pubkey

-- `buildTestBundles`, with the two secret keys that `p256.keygen` draws.
unfoldable pub build_test_bundles :
    Crypto → Bytes → Bytes → Result SignerError (SignedBundle × SignedBundle)
unfolding generate_keypair build_signed_bundle build_player_a_ops build_player_b_ops
build_test_bundles c secret_a secret_b = do
  let a = generate_keypair c secret_a
  let b = generate_keypair c secret_b
  bundle_a ←
      build_signed_bundle c wager a.pub_key_hex a.priv_key (build_player_a_ops c b.pub_key_hex)
  bundle_b ←
      build_signed_bundle c wager b.pub_key_hex b.priv_key (build_player_b_ops c a.pub_key_hex)
  returned (bundle_a, bundle_b)

-- `(get-balance 0x<key> '<token>)`
abbrev balance_code : Bytes → Bytes
balance_code key_hex =
    codes "(get-balance 0x"
    ++ (key_hex ++ codes " 'SPV9K21TBFAK4KNRJXF5DFP8N7W46G4V9RCJDC22.test-token)")

abbrev fees_code : Bytes
fees_code = codes "(get-accumulated-fees 'SPV9K21TBFAK4KNRJXF5DFP8N7W46G4V9RCJDC22.test-token)"

abbrev wallet_code : Bytes → Bytes
wallet_code key_hex = codes "(get-registered-wallet 0x" ++ (key_hex ++ codes ")")

-- `runSimulation`: the builder calls, or the throw of a bundle that lacks a signature.
unfoldable pub run_simulation : Bundle → Bundle → Result BundleError (List BuilderCall)
unfolding sig strip_hex
run_simulation bundle_a bundle_b = do
  let a_hex = strip_hex bundle_a.pubkey_hex
  let b_hex = strip_hex bundle_b.pubkey_hex
  let pub_a = from_hex a_hex
  let pub_b = from_hex b_hex
  wager_a ← sig bundle_a 2
  wager_b ← sig bundle_b 2
  register_a ← sig bundle_a 1
  register_b ← sig bundle_b 1
  withdraw_a ← sig bundle_a 3
  returned (
      with_sender pillar_trait_deployer
      ∷ deploy_contract "pillar-wallet-trait"
          "contracts/deployed/deploying/pillar-wallet-trait.clar"
      ∷ with_sender deployer
      ∷ deploy_contract "sip-010-trait" "contracts/sip-010-trait.clar"
      ∷ deploy_contract "test-token" "contracts/test-token.clar"
      ∷ deploy_contract "clarity-webauthn" "contracts/clarity-webauthn.clar"
      ∷ deploy_contract "test-wallet-a" "contracts/test-wallet.clar"
      ∷ deploy_contract "test-wallet-b" "contracts/test-wallet.clar"
      ∷ deploy_contract "game-wager-v2" "contracts/game-wager-v2.clar"
      ∷ call_wager "set-token-whitelist" (principal token ∷ bool true ∷ [])
      ∷ call_contract token "mint" (uint mint_amount ∷ principal deployer ∷ [])
      ∷ deposit_call deposit_amount pub_a
      ∷ deposit_call deposit_amount pub_b
      ∷ with_sender oracle
      ∷ call_wager "create-game" (
          buffer pub_a
          ∷ buffer pub_b
          ∷ principal token
          ∷ uint wager_amount
          ∷ sig_auth_no_pubkey wager_a.auth_id wager_a.assertion
          ∷ sig_auth_no_pubkey wager_b.auth_id wager_b.assertion
          ∷ [])
      ∷ call_wager "resolve-game" (uint 0 ∷ buffer pub_a ∷ [])
      ∷ with_sender deployer
      ∷ call_wager "register-wallet" (principal test_wallet_a ∷ sig_auth_tuple register_a ∷ [])
      ∷ call_wager "register-wallet" (principal test_wallet_b ∷ sig_auth_tuple register_b ∷ [])
      ∷ call_wager "withdraw" (
          principal token
          ∷ ascii "game-token"
          ∷ uint withdraw_amount
          ∷ principal test_wallet_a
          ∷ sig_auth_tuple withdraw_a
          ∷ [])
      ∷ add_reads (
          data_var wager "game-nonce"
          ∷ eval_readonly deployer "" wager (balance_code a_hex)
          ∷ eval_readonly deployer "" wager (balance_code b_hex)
          ∷ eval_readonly deployer "" wager (codes "(get-game u0)")
          ∷ eval_readonly deployer "" wager fees_code
          ∷ eval_readonly deployer "" wager (wallet_code a_hex)
          ∷ eval_readonly deployer "" wager (wallet_code b_hex)
          ∷ [])
      ∷ [])

-- The label of each step.
unfoldable pub labels : List String
labels =
    "Deploy pillar-wallet-trait (SP28MP1H)" ∷ "Deploy sip-010-trait" ∷ "Deploy test-token"
    ∷ "Deploy clarity-webauthn" ∷ "Deploy test-wallet-a" ∷ "Deploy test-wallet-b"
    ∷ "Deploy game-wager-v2" ∷ "set-token-whitelist(test-token, true)"
    ∷ "Mint 10000000 GAME to deployer" ∷ "Deposit 1000000 for Player A"
    ∷ "Deposit 1000000 for Player B" ∷ "create-game (webauthn x2)" ∷ "resolve-game (A wins)"
    ∷ "register-wallet: Player A -> test-wallet-a" ∷ "register-wallet: Player B -> test-wallet-b"
    ∷ "withdraw 400000 for Player A" ∷ "Read final state" ∷ []
