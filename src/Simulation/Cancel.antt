-- ===== src/Simulation/Cancel.antt =====
-- simul-game-wager-v2-cancel.js: one game that the oracle cancels, one that times out.
use pillar_wallets_xyz.Base.{
  ℕ, String, Bytes, codes, take, ◌++◌, List, [], ◌∷◌, true, nat_beq, length, ◌&&◌, if◌then◌else◌,
  map,
}
use pillar_wallets_xyz.Base.Result.{Result, returned, thrown, ◌>>=◌}
use pillar_wallets_xyz.Clarity.Value.{uint, bool, buffer, principal}
use pillar_wallets_xyz.Encoding.Hex.{from_hex, to_hex, strip_hex, zero_x}
use pillar_wallets_xyz.Webauthn.Crypto.{Crypto}
use pillar_wallets_xyz.Webauthn.Signer.{
  Operation, SignedBundle, SignerError, build_signed_bundle, generate_keypair,
}
use pillar_wallets_xyz.Simulation.Builder.{
  BuilderCall, with_sender, add_advance_blocks, add_reads, data_var, eval_readonly,
}
use pillar_wallets_xyz.Simulation.Common.{
  Bundle, BundleError, sig, deployer, pillar_trait_deployer, oracle, random_user, wager, token,
  challenge, spec_wager, sig_auth_no_pubkey, deploy_contract, call_contract, call_wager,
  deposit_call,
}

abbrev pub mint_amount : ℕ
mint_amount = 10000000

abbrev pub deposit_amount : ℕ
deposit_amount = 1000000

abbrev pub wager_amount : ℕ
wager_amount = 100000

abbrev pub advance_blocks : ℕ
advance_blocks = 150

unfoldable pub build_player_a_ops : Crypto → Bytes → List Operation
build_player_a_ops c pub_b_hex =
    let key = strip_hex pub_b_hex in
    record {
      auth_id = 1;
      label = codes "Player A · wager (game-0) 100000 GAME vs 0x" ++ (take 12 key ++ codes "...");
      challenge = challenge c (spec_wager 1 key token wager_amount);
    }
    ∷ record {
      auth_id = 2;
      label = codes "Player A · wager (game-1) 100000 GAME vs 0x" ++ (take 12 key ++ codes "...");
      challenge = challenge c (spec_wager 2 key token wager_amount);
    }
    ∷ []

unfoldable pub build_player_b_ops : Crypto → Bytes → List Operation
build_player_b_ops c pub_a_hex =
    let key = strip_hex pub_a_hex in
    record {
      auth_id = 1;
      label = codes "Player B · wager (game-0) 100000 GAME vs 0x" ++ (take 12 key ++ codes "...");
      challenge = challenge c (spec_wager 1 key token wager_amount);
    }
    ∷ record {
      auth_id = 2;
      label = codes "Player B · wager (game-1) 100000 GAME vs 0x" ++ (take 12 key ++ codes "...");
      challenge = challenge c (spec_wager 2 key token wager_amount);
    }
    ∷ []

-- One entry of the file that `--print-challenges` writes.
pub record ChallengeEntry : Type 0 where
  pub auth_id : ℕ
  pub label : Bytes
  pub challenge_hex : Bytes

pub record ChallengeBundle : Type 0 where
  pub wallet_principal : String
  pub rp_id : Bytes
  pub operations : List ChallengeEntry

pub data PrintError : Type 0 where
  bad_pubkey : PrintError

abbrev entry_of : Operation → ChallengeEntry
entry_of op = record {
  auth_id = op.auth_id;
  label = op.label;
  challenge_hex = zero_x (to_hex op.challenge);
}

abbrev challenge_bundle : List Operation → ChallengeBundle
challenge_bundle ops = record {
  wallet_principal = wager;
  rp_id = codes "fak.fun";
  operations = map entry_of ops;
}

-- `printChallenges`: what is written to the files of the two players.
unfoldable pub print_challenges :
    Crypto → Bytes → Bytes → Result PrintError (ChallengeBundle × ChallengeBundle)
unfolding strip_hex build_player_a_ops build_player_b_ops
print_challenges c pubkey_a_hex pubkey_b_hex =
    let pub_a = strip_hex pubkey_a_hex in
    let pub_b = strip_hex pubkey_b_hex in
    if nat_beq (length pub_a) 66 && nat_beq (length pub_b) 66
    then returned (
      challenge_bundle (build_player_a_ops c pub_b),
      challenge_bundle (build_player_b_ops c pub_a),
    )
    else thrown bad_pubkey

-- `buildTestBundles`, with the two secret keys that `p256.keygen` draws.
unfoldable pub build_test_bundles :
    Crypto → Bytes → Bytes → Result SignerError (SignedBundle × SignedBundle)
unfolding generate_keypair build_signed_bundle build_player_a_ops build_player_b_ops
build_test_bundles c secret_a secret_b = do
  let a = generate_keypair c secret_a
  let b = generate_keypair c secret_b
  bundle_a ←
      build_signed_bundle c wager a.pub_key_hex a.priv_key (build_player_a_ops c b.pub_key_hex)
  bundle_b ←
      build_signed_bundle c wager b.pub_key_hex b.priv_key (build_player_b_ops c a.pub_key_hex)
  returned (bundle_a, bundle_b)

-- `(get-balance 0x<key> '<token>)`
abbrev balance_code : Bytes → Bytes
balance_code key_hex =
    codes "(get-balance 0x"
    ++ (key_hex ++ codes " 'SPV9K21TBFAK4KNRJXF5DFP8N7W46G4V9RCJDC22.test-token)")

abbrev fees_code : Bytes
fees_code = codes "(get-accumulated-fees 'SPV9K21TBFAK4KNRJXF5DFP8N7W46G4V9RCJDC22.test-token)"

-- `runSimulation`: the builder calls, or the throw of a bundle that lacks a signature.
unfoldable pub run_simulation : Bundle → Bundle → Result BundleError (List BuilderCall)
unfolding sig strip_hex
run_simulation bundle_a bundle_b = do
  let a_hex = strip_hex bundle_a.pubkey_hex
  let b_hex = strip_hex bundle_b.pubkey_hex
  let pub_a = from_hex a_hex
  let pub_b = from_hex b_hex
  first_a ← sig bundle_a 1
  first_b ← sig bundle_b 1
  second_a ← sig bundle_a 2
  second_b ← sig bundle_b 2
  returned (
      with_sender pillar_trait_deployer
      ∷ deploy_contract "pillar-wallet-trait"
          "contracts/deployed/deploying/pillar-wallet-trait.clar"
      ∷ with_sender deployer
      ∷ deploy_contract "sip-010-trait" "contracts/sip-010-trait.clar"
      ∷ deploy_contract "test-token" "contracts/test-token.clar"
      ∷ deploy_contract "clarity-webauthn" "contracts/clarity-webauthn.clar"
      ∷ deploy_contract "test-wallet-a" "contracts/test-wallet.clar"
      ∷ deploy_contract "test-wallet-b" "contracts/test-wallet.clar"
      ∷ deploy_contract "game-wager-v2" "contracts/game-wager-v2.clar"
      ∷ call_wager "set-token-whitelist" (principal token ∷ bool true ∷ [])
      ∷ call_contract token "mint" (uint mint_amount ∷ principal deployer ∷ [])
      ∷ deposit_call deposit_amount pub_a
      ∷ deposit_call deposit_amount pub_b
      ∷ with_sender oracle
      ∷ call_wager "create-game" (
          buffer pub_a
          ∷ buffer pub_b
          ∷ principal token
          ∷ uint wager_amount
          ∷ sig_auth_no_pubkey first_a.auth_id first_a.assertion
          ∷ sig_auth_no_pubkey first_b.auth_id first_b.assertion
          ∷ [])
      ∷ call_wager "cancel-game" (uint 0 ∷ [])
      ∷ call_wager "create-game" (
          buffer pub_a
          ∷ buffer pub_b
          ∷ principal token
          ∷ uint wager_amount
          ∷ sig_auth_no_pubkey second_a.auth_id second_a.assertion
          ∷ sig_auth_no_pubkey second_b.auth_id second_b.assertion
          ∷ [])
      ∷ add_advance_blocks advance_blocks 1
      ∷ with_sender random_user
      ∷ call_wager "cancel-game" (uint 1 ∷ [])
      ∷ add_reads (
          data_var wager "game-nonce"
          ∷ eval_readonly deployer "" wager (balance_code a_hex)
          ∷ eval_readonly deployer "" wager (balance_code b_hex)
          ∷ eval_readonly deployer "" wager (codes "(get-game u0)")
          ∷ eval_readonly deployer "" wager (codes "(get-game u1)")
          ∷ eval_readonly deployer "" wager fees_code
          ∷ [])
      ∷ [])

-- The label of each step.
unfoldable pub labels : List String
labels =
    "Deploy pillar-wallet-trait (SP28MP1H)" ∷ "Deploy sip-010-trait" ∷ "Deploy test-token"
    ∷ "Deploy clarity-webauthn" ∷ "Deploy test-wallet-a" ∷ "Deploy test-wallet-b"
    ∷ "Deploy game-wager-v2" ∷ "set-token-whitelist" ∷ "Mint 10000000 GAME"
    ∷ "Deposit 1000000 for Player A" ∷ "Deposit 1000000 for Player B" ∷ "Game 0: create-game"
    ∷ "Game 0: oracle cancel-game (immediate)" ∷ "Game 1: create-game"
    ∷ "AdvanceBlocks(150) past GAME_TIMEOUT" ∷ "Game 1: timeout cancel-game (by RANDOM_USER)"
    ∷ "Read final state" ∷ []
