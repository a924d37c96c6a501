-- ===== src/Simulation/Admin.antt =====
-- simul-game-wager-v2-admin.js: the deployer-only setters with their caps, and the fee sweep.
use pillar_wallets_xyz.Base.{ℕ, ◌+◌, ◌*◌, ◌/◌, String, Bytes, codes, List, [], ◌∷◌, true}
use pillar_wallets_xyz.Base.Result.{Result, returned, ◌>>=◌}
use pillar_wallets_xyz.Clarity.Value.{uint, bool, buffer, principal, ascii}
use pillar_wallets_xyz.Webauthn.Crypto.{Crypto}
use pillar_wallets_xyz.Webauthn.Signer.{Operation, SignerError, sign_operation, generate_keypair}
use pillar_wallets_xyz.Simulation.Builder.{BuilderCall, with_sender, add_reads, Read, eval_readonly}
use pillar_wallets_xyz.Simulation.Common.{
  deployer, pillar_trait_deployer, oracle, wager, token, challenge, spec_wager, sig_auth_no_pubkey,
  deploy_contract, call_contract, call_wager, deposit_call,
}
use pillar_wallets_xyz.Simulation.Report.{
  Check, ok_any, ok_bool, ok_game_id, err_code, fees_are, config_is,
}

abbrev pub mint_amount : ℕ
mint_amount = 10000000

abbrev pub deposit_amount : ℕ
deposit_amount = 1000000

abbrev pub wager_amount : ℕ
wager_amount = 100000

abbrev pub fee_rate_limit : ℕ
fee_rate_limit = 2000

abbrev pub withdraw_fee_limit : ℕ
withdraw_fee_limit = 1000

abbrev pub new_withdraw_fee_rate : ℕ
new_withdraw_fee_rate = 200

abbrev pub new_oracle : String
new_oracle = "SP1G655MB1JVQ5FBE2JJ3E01HEA6KBM4H39F5EW63"

abbrev pub new_treasury : String
new_treasury = "SP2C7BCAP2NH3EYWCCVHJ6K0DMZBXDFKQ56KR7QN2"

-- `2 * Math.floor(WAGER_AMOUNT * NEW_WITHDRAW_FEE_RATE / 10000)`
abbrev pub expected_accumulated_fee : ℕ
expected_accumulated_fee = 2 * (wager_amount * new_withdraw_fee_rate / 10000)

abbrev fees_code : Bytes
fees_code = codes "(get-accumulated-fees 'SPV9K21TBFAK4KNRJXF5DFP8N7W46G4V9RCJDC22.test-token)"

abbrev treasury_balance : Read
treasury_balance =
    eval_readonly deployer "" token
      (codes "(get-balance 'SP2C7BCAP2NH3EYWCCVHJ6K0DMZBXDFKQ56KR7QN2)")

abbrev wager_operation : Crypto → Bytes → Bytes → Operation
wager_operation c label key_hex = record {
  auth_id = 1;
  label = label;
  challenge = challenge c (spec_wager 1 key_hex token wager_amount);
}

-- `runSimulation`: `bundle.operations[0]` of each player signs the one game.
unfoldable pub run_simulation : Crypto → Bytes → Bytes → Result SignerError (List BuilderCall)
unfolding generate_keypair sign_operation
run_simulation c secret_a secret_b = do
  let a = generate_keypair c secret_a
  let b = generate_keypair c secret_b
  sig_a ← sign_operation c a.priv_key (wager_operation c (codes "A wager") b.pub_key_hex)
  sig_b ← sign_operation c b.priv_key (wager_operation c (codes "B wager") a.pub_key_hex)
  returned (
      with_sender pillar_trait_deployer
      ∷ deploy_contract "pillar-wallet-trait"
          "contracts/deployed/deploying/pillar-wallet-trait.clar"
      ∷ with_sender deployer
      ∷ deploy_contract "sip-010-trait" "contracts/sip-010-trait.clar"
      ∷ deploy_contract "test-token" "contracts/test-token.clar"
      ∷ deploy_contract "clarity-webauthn" "contracts/clarity-webauthn.clar"
      ∷ deploy_contract "game-wager-v2" "contracts/game-wager-v2.clar"
      ∷ call_wager "set-token-whitelist" (principal token ∷ bool true ∷ [])
      ∷ call_contract token "mint" (uint mint_amount ∷ principal deployer ∷ [])
      ∷ call_wager "set-fee-rate" (uint 800 ∷ [])
      ∷ call_wager "set-fee-rate" (uint (fee_rate_limit + 1) ∷ [])
      ∷ call_wager "set-withdraw-fee-rate" (uint new_withdraw_fee_rate ∷ [])
      ∷ call_wager "set-withdraw-fee-rate" (uint (withdraw_fee_limit + 1) ∷ [])
      ∷ call_wager "set-treasury" (principal new_treasury ∷ [])
      ∷ deposit_call deposit_amount a.pub_key
      ∷ deposit_call deposit_amount b.pub_key
      ∷ with_sender oracle
      ∷ call_wager "create-game" (
          buffer a.pub_key
          ∷ buffer b.pub_key
          ∷ principal token
          ∷ uint wager_amount
          ∷ sig_auth_no_pubkey sig_a.auth_id sig_a.assertion
          ∷ sig_auth_no_pubkey sig_b.auth_id sig_b.assertion
          ∷ [])
      ∷ call_wager "cancel-game" (uint 0 ∷ [])
      ∷ add_reads (eval_readonly deployer "" wager fees_code ∷ treasury_balance ∷ [])
      ∷ with_sender deployer
      ∷ call_wager "sweep-fees" (principal token ∷ ascii "game-token" ∷ [])
      ∷ add_reads (eval_readonly deployer "" wager fees_code ∷ treasury_balance ∷ [])
      ∷ call_wager "set-oracle" (principal new_oracle ∷ [])
      ∷ add_reads (
          eval_readonly deployer "" wager (codes "(get-oracle)")
          ∷ eval_readonly deployer "" wager (codes "(get-fee-rate)")
          ∷ eval_readonly deployer "" wager (codes "(get-withdraw-fee-rate)")
          ∷ [])
      ∷ [])

-- The check of each step.
unfoldable pub checks : List Check
checks =
    record { label = "Deploy pillar-wallet-trait"; kind = ok_any }
    ∷ record { label = "Deploy sip-010-trait"; kind = ok_any }
    ∷ record { label = "Deploy test-token"; kind = ok_any }
    ∷ record { label = "Deploy clarity-webauthn"; kind = ok_any }
    ∷ record { label = "Deploy game-wager-v2"; kind = ok_any }
    ∷ record { label = "set-token-whitelist"; kind = ok_bool }
    ∷ record { label = "Mint 10000000 GAME"; kind = ok_bool }
    ∷ record { label = "[A1] set-fee-rate(800)"; kind = ok_bool }
    ∷ record { label = "[A2] set-fee-rate(2001) above cap"; kind = err_code 7009 }
    ∷ record { label = "[A3] set-withdraw-fee-rate(200)"; kind = ok_bool }
    ∷ record { label = "[A4] set-withdraw-fee-rate(1001) above cap"; kind = err_code 7009 }
    ∷ record {
      label = "[A5] set-treasury(SP2C7BCAP2NH3EYWCCVHJ6K0DMZBXDFKQ56KR7QN2)";
      kind = ok_bool;
    }
    ∷ record { label = "Deposit A (for fee accumulation)"; kind = ok_bool }
    ∷ record { label = "Deposit B (for fee accumulation)"; kind = ok_bool }
    ∷ record { label = "create-game"; kind = ok_game_id }
    ∷ record { label = "cancel-game(oracle) accumulates fees"; kind = ok_bool }
    ∷ record { label = "Snapshot pre-sweep state"; kind = fees_are expected_accumulated_fee 0 }
    ∷ record { label = "[A6] sweep-fees"; kind = ok_bool }
    ∷ record { label = "Snapshot post-sweep state"; kind = fees_are 0 expected_accumulated_fee }
    ∷ record { label = "[A7] set-oracle(NEW_ORACLE)"; kind = ok_bool }
    ∷ record {
      label = "Read oracle/fee-rate/withdraw-fee-rate";
      kind = config_is 800 new_withdraw_fee_rate;
    }
    ∷ []
