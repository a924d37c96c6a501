-- ===== src/Simulation/Common.antt =====
-- What the four scripts share: addresses, SIP-018 challenges, signature tuples and bundles.
use pillar_wallets_xyz.Base.{
  ℕ, String, Option, none, some, List, [], ◌∷◌, ◌++◌, Bytes, nat_eq, lookup, insert,
}
use pillar_wallets_xyz.Base.Result.{Result, returned, thrown}
use pillar_wallets_xyz.Clarity.Value.{
  Value, Fields, uint, buffer, principal, ascii, tuple, end, field,
}
use pillar_wallets_xyz.Encoding.Hex.{hex_buffer}
use pillar_wallets_xyz.Sip018.{sip018_prefix, cv_sha256}
use pillar_wallets_xyz.Webauthn.Crypto.{Crypto}
use pillar_wallets_xyz.Webauthn.Signer.{Assertion, SignedOperation, SignedBundle}
use pillar_wallets_xyz.Simulation.Builder.{
  BuilderCall, add_contract_deploy, add_contract_call, clarity5, allow,
}

abbrev pub deployer : String
deployer = "SPV9K21TBFAK4KNRJXF5DFP8N7W46G4V9RCJDC22"

abbrev pub pillar_trait_deployer : String
pillar_trait_deployer = "SP28MP1HQDJWQAFSQJN2HBAXBVP7H7THD1W2NYZVK"

abbrev pub oracle : String
oracle = pillar_trait_deployer

abbrev pub random_user : String
random_user = "SP2C7BCAP2NH3EYWCCVHJ6K0DMZBXDFKQ56KR7QN2"

abbrev pub wager : String
wager = "SPV9K21TBFAK4KNRJXF5DFP8N7W46G4V9RCJDC22.game-wager-v2"

abbrev pub token : String
token = "SPV9K21TBFAK4KNRJXF5DFP8N7W46G4V9RCJDC22.test-token"

abbrev pub test_wallet_a : String
test_wallet_a = "SPV9K21TBFAK4KNRJXF5DFP8N7W46G4V9RCJDC22.test-wallet-a"

abbrev pub test_wallet_b : String
test_wallet_b = "SPV9K21TBFAK4KNRJXF5DFP8N7W46G4V9RCJDC22.test-wallet-b"

abbrev pub unapproved_token : String
unapproved_token = "SPV9K21TBFAK4KNRJXF5DFP8N7W46G4V9RCJDC22.unapproved-token"

module _ (c : Crypto) where
  unfoldable pub game_wager_v2_domain_hash : Bytes
  unfolding cv_sha256
  game_wager_v2_domain_hash = cv_sha256 c (
      tuple (
        field "chain-id" (uint 1) (
          field "contract" (principal wager)
            (field "name" (ascii "game-wager") (field "version" (ascii "2.0.0") end)))))

  unfoldable pub challenge : Value → Bytes
  unfolding cv_sha256 game_wager_v2_domain_hash
  challenge message = c.sha256 (sip018_prefix ++ (game_wager_v2_domain_hash ++ cv_sha256 c message))

unfoldable pub spec_register_wallet : ℕ → String → Value
spec_register_wallet auth_id wallet = tuple (
    field "auth-id" (uint auth_id)
      (field "topic" (ascii "register-wallet") (field "wallet" (principal wallet) end)))

unfoldable pub spec_wager : ℕ → Bytes → String → ℕ → Value
spec_wager auth_id opponent_hex wager_token wager_amount = tuple (
    field "auth-id" (uint auth_id) (
      field "opponent" (buffer (hex_buffer opponent_hex)) (
        field "token" (principal wager_token)
          (field "topic" (ascii "wager") (field "wager-amount" (uint wager_amount) end)))))

unfoldable pub spec_withdraw : ℕ → ℕ → String → String → Value
spec_withdraw auth_id amount recipient withdraw_token = tuple (
    field "amount" (uint amount) (
      field "auth-id" (uint auth_id) (
        field "recipient" (principal recipient)
          (field "token" (principal withdraw_token) (field "topic" (ascii "withdraw") end)))))

-- An entry of a bundle, with the key of its bundle.
pub record Signed : Type 0 where
  pub auth_id : ℕ
  pub pubkey_hex : Bytes
  pub assertion : Assertion

-- The four buffers that close both kinds of tuple.
unfoldable pub signature_fields : Assertion → Fields
signature_fields a = field "signature" (buffer (hex_buffer a.signature_hex)) (
    field "authenticator-data" (buffer (hex_buffer a.authenticator_data_hex)) (
      field "client-data-prefix" (buffer (hex_buffer a.client_data_prefix_hex))
        (field "client-data-suffix" (buffer (hex_buffer a.client_data_suffix_hex)) end)))

unfoldable pub sig_auth_tuple : Signed → Value
unfolding signature_fields
sig_auth_tuple signed = tuple (
    field "auth-id" (uint signed.auth_id)
      (field "pubkey" (buffer (hex_buffer signed.pubkey_hex)) (signature_fields signed.assertion)))

unfoldable pub sig_auth_no_pubkey : ℕ → Assertion → Value
unfolding signature_fields
sig_auth_no_pubkey auth_id a = tuple (field "auth-id" (uint auth_id) (signature_fields a))

-- `byAuthId.set(op.authId, {...})` for each operation in turn.
unfoldable pub by_auth_id : Bytes → List SignedOperation → List (ℕ × Signed) → List (ℕ × Signed)
by_auth_id key_hex [] m = m
by_auth_id key_hex (op ∷ ops) m = by_auth_id key_hex ops (
    insert op.auth_id
      (record { auth_id = op.auth_id; pubkey_hex = key_hex; assertion = op.assertion }) m)

pub record Bundle : Type 0 where
  pub pubkey_hex : Bytes
  pub wallet_principal : String
  pub entries : List (ℕ × Signed)

unfoldable pub bundle_from_json : SignedBundle → Bundle
unfolding by_auth_id
bundle_from_json raw = record {
  pubkey_hex = raw.pubkey_hex;
  wallet_principal = raw.wallet_principal;
  entries = by_auth_id raw.pubkey_hex raw.operations [];
}

-- `throw new Error("signed bundle ... missing auth-id ...")`
pub data BundleError : Type 0 where
  missing_auth_id : ℕ → BundleError

abbrev found_or_missing : ℕ → Option Signed → Result BundleError Signed
found_or_missing id none = thrown (missing_auth_id id)
found_or_missing id (some v) = returned v

-- `bundle.sig(id)`
unfoldable pub sig : Bundle → ℕ → Result BundleError Signed
sig bundle id = found_or_missing id (lookup id bundle.entries)

-- Every script deploys with Clarity 5 and calls with post-conditions allowed.
abbrev pub deploy_contract : String → String → BuilderCall
deploy_contract name source = add_contract_deploy name source clarity5

abbrev pub call_contract : String → String → List Value → BuilderCall
call_contract contract function args = add_contract_call contract function args allow

abbrev pub call_wager : String → List Value → BuilderCall
call_wager function args = call_contract wager function args

-- `contractPrincipalCV(DEPLOYER, "test-token")` is the principal `token`.
abbrev pub deposit_call : ℕ → Bytes → BuilderCall
deposit_call amount pubkey =
    call_wager "deposit" (principal token ∷ uint amount ∷ buffer pubkey ∷ [])
