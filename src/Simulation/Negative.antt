-- ===== src/Simulation/Negative.antt =====
-- simul-game-wager-v2-negative.js: every guard of the escrow, with the error it must give.
use pillar_wallets_xyz.Base.{ℕ, Bytes, codes, List, [], ◌∷◌, true, replicate}
use pillar_wallets_xyz.Base.Result.{Result, returned, ◌>>=◌}
use pillar_wallets_xyz.Clarity.Value.{Value, uint, bool, buffer, principal, tuple, field}
use pillar_wallets_xyz.Encoding.Hex.{to_hex, zero_x}
use pillar_wallets_xyz.Webauthn.Crypto.{Crypto}
use pillar_wallets_xyz.Webauthn.Signer.{
  SignerError, Keypair, Assertion, sign_challenge, sign_challenge_with_rp_id, generate_keypair,
}
use pillar_wallets_xyz.Simulation.Builder.{BuilderCall, with_sender}
use pillar_wallets_xyz.Simulation.Common.{
  deployer, pillar_trait_deployer, oracle, random_user, token, test_wallet_a, unapproved_token,
  challenge, spec_register_wallet, spec_wager, sig_auth_no_pubkey, signature_fields,
  deploy_contract, call_contract, call_wager, deposit_call,
}
use pillar_wallets_xyz.Simulation.Report.{Check, ok_any, ok_bool, err_code}

abbrev pub mint_amount : ℕ
mint_amount = 10000000

abbrev pub deposit_amount : ℕ
deposit_amount = 1000000

abbrev pub wager_amount : ℕ
wager_amount = 100000

-- The assertions that the script prepares with the key of player A.
pub record Signatures : Type 0 where
  pub valid_register : Assertion
  pub wrong_rp_register : Assertion
  pub garbage_register : Assertion
  pub same_player : Assertion

-- `signatureHex: "0x" + Buffer.alloc(64, 0xff).toString("hex")`, the rest as in a valid one.
unfoldable pub garbage_of : Assertion → Assertion
unfolding to_hex
garbage_of valid = record valid { signature_hex = zero_x (to_hex (replicate 64 0xff)) }

unfoldable pub build_signatures : Crypto → Keypair → Result SignerError Signatures
unfolding garbage_of sign_challenge sign_challenge_with_rp_id
build_signatures c a = do
  let register_challenge = challenge c (spec_register_wallet 1 test_wallet_a)
  valid ← sign_challenge c register_challenge a.priv_key
  wrong_rp ← sign_challenge_with_rp_id c register_challenge a.priv_key (codes "evil.com")
  same_player ←
      sign_challenge c (challenge c (spec_wager 2 a.pub_key_hex token wager_amount)) a.priv_key
  returned (record {
    valid_register = valid;
    wrong_rp_register = wrong_rp;
    garbage_register = garbage_of valid;
    same_player = same_player;
  })

-- `sigAuthTupleFromBytes`: the key is given as bytes.
unfoldable pub sig_auth_tuple_from_bytes : ℕ → Bytes → Assertion → Value
unfolding signature_fields
sig_auth_tuple_from_bytes auth_id pub_key a =
    tuple (field "auth-id" (uint auth_id) (field "pubkey" (buffer pub_key) (signature_fields a)))

abbrev register_call : Bytes → Assertion → BuilderCall
register_call pub_key a =
    call_wager "register-wallet"
      (principal test_wallet_a ∷ sig_auth_tuple_from_bytes 1 pub_key a ∷ [])

-- `runSimulation`: the builder calls for the two fresh keys.
unfoldable pub run_simulation : Crypto → Bytes → Bytes → Result SignerError (List BuilderCall)
unfolding build_signatures generate_keypair
run_simulation c secret_a secret_b = do
  let a = generate_keypair c secret_a
  let b = generate_keypair c secret_b
  s ← build_signatures c a
  returned (
      with_sender pillar_trait_deployer
      ∷ deploy_contract "pillar-wallet-trait"
          "contracts/deployed/deploying/pillar-wallet-trait.clar"
      ∷ with_sender deployer
      ∷ deploy_contract "sip-010-trait" "contracts/sip-010-trait.clar"
      ∷ deploy_contract "test-token" "contracts/test-token.clar"
      ∷ deploy_contract "unapproved-token" "contracts/test-token.clar"
      ∷ deploy_contract "clarity-webauthn" "contracts/clarity-webauthn.clar"
      ∷ deploy_contract "test-wallet-a" "contracts/test-wallet.clar"
      ∷ deploy_contract "game-wager-v2" "contracts/game-wager-v2.clar"
      ∷ call_wager "set-token-whitelist" (principal token ∷ bool true ∷ [])
      ∷ call_contract token "mint" (uint mint_amount ∷ principal deployer ∷ [])
      ∷ call_contract unapproved_token "mint" (uint mint_amount ∷ principal deployer ∷ [])
      ∷ deposit_call deposit_amount a.pub_key
      ∷ register_call a.pub_key s.wrong_rp_register
      ∷ register_call a.pub_key s.garbage_register
      ∷ register_call a.pub_key s.valid_register
      ∷ register_call a.pub_key s.valid_register
      ∷ call_wager "deposit"
          (principal unapproved_token ∷ uint deposit_amount ∷ buffer a.pub_key ∷ [])
      ∷ with_sender random_user
      ∷ call_wager "create-game" (
          buffer a.pub_key
          ∷ buffer b.pub_key
          ∷ principal token
          ∷ uint wager_amount
          ∷ sig_auth_no_pubkey 99 s.same_player
          ∷ sig_auth_no_pubkey 99 s.same_player
          ∷ [])
      ∷ with_sender oracle
      ∷ call_wager "create-game" (
          buffer a.pub_key
          ∷ buffer a.pub_key
          ∷ principal token
          ∷ uint wager_amount
          ∷ sig_auth_no_pubkey 2 s.same_player
          ∷ sig_auth_no_pubkey 2 s.same_player
          ∷ [])
      ∷ with_sender random_user
      ∷ call_wager "set-fee-rate" (uint 1000 ∷ [])
      ∷ [])

-- The check of each step.
unfoldable pub checks : List Check
checks =
    record { label = "Deploy pillar-wallet-trait"; kind = ok_any }
    ∷ record { label = "Deploy sip-010-trait"; kind = ok_any }
    ∷ record { label = "Deploy test-token"; kind = ok_any }
    ∷ record { label = "Deploy unapproved-token"; kind = ok_any }
    ∷ record { label = "Deploy clarity-webauthn"; kind = ok_any }
    ∷ record { label = "Deploy test-wallet-a"; kind = ok_any }
    ∷ record { label = "Deploy game-wager-v2"; kind = ok_any }
    ∷ record { label = "set-token-whitelist(test-token)"; kind = ok_bool }
    ∷ record { label = "Mint 10000000 GAME to deployer"; kind = ok_bool }
    ∷ record { label = "Mint 10000000 unapproved-token"; kind = ok_bool }
    ∷ record { label = "Deposit 1000000 for Player A (setup)"; kind = ok_bool }
    ∷ record { label = "[E1] register-wallet wrong-rp.id sig"; kind = err_code 7003 }
    ∷ record { label = "[E2] register-wallet random-bytes sig"; kind = err_code 7003 }
    ∷ record { label = "[E3] register-wallet valid sig (sets up replay)"; kind = ok_bool }
    ∷ record { label = "[E4] register-wallet REPLAY of same sig"; kind = err_code 7010 }
    ∷ record { label = "[E5] deposit unapproved-token"; kind = err_code 7013 }
    ∷ record { label = "[E6] create-game from non-oracle"; kind = err_code 7001 }
    ∷ record { label = "[E7] create-game same-player (A vs A)"; kind = err_code 7012 }
    ∷ record { label = "[E8] set-fee-rate by non-deployer"; kind = err_code 7002 }
    ∷ []
