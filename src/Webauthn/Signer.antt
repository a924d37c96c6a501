-- ===== src/Webauthn/Signer.antt =====
-- lib-webauthn-test-signer.mjs: P-256 assertions in the form of a browser, without a browser.
-- Randomness (`p256.keygen`) is an argument. Texts are lists of code units, an rp id of units below
-- 256, which Node's "ascii" encoding takes for bytes.
use pillar_wallets_xyz.Base.{
  ℕ, String, List, [], ◌∷◌, ◌++◌, Bytes, bytes_beq, codes, length, nat_beq, ltb, ◌+◌, ◌/◌, ◌%◌,
  if◌then◌else◌,
}
use pillar_wallets_xyz.Base.Result.{Result, returned, thrown, ◌>>=◌}
use pillar_wallets_xyz.Encoding.Hex.{to_hex, zero_x}
use pillar_wallets_xyz.Encoding.Base64.{base64url}
use pillar_wallets_xyz.Webauthn.Crypto.{Crypto, fak_fun_hash}

pub data SignerError : Type 0 where
  rp_id_mismatch : SignerError
  challenge_length : ℕ → SignerError

abbrev pub test_rp_id : Bytes
test_rp_id = codes "fak.fun"

abbrev pub client_data_prefix : Bytes
client_data_prefix = codes "{\"type\":\"webauthn.get\",\"challenge\":\""

pub record Keypair : Type 0 where
  pub priv_key : Bytes
  pub priv_key_hex : Bytes
  pub pub_key : Bytes
  pub pub_key_hex : Bytes
  pub pub_key_uncompressed_hex : Bytes

pub record Assertion : Type 0 where
  pub signature_hex : Bytes
  pub authenticator_data_hex : Bytes
  pub client_data_prefix_hex : Bytes
  pub client_data_suffix_hex : Bytes

pub record Operation : Type 0 where
  pub auth_id : ℕ
  pub label : Bytes
  pub challenge : Bytes

pub record SignedOperation : Type 0 where
  pub auth_id : ℕ
  pub label : Bytes
  pub challenge_hex : Bytes
  pub assertion : Assertion

pub record SignedBundle : Type 0 where
  pub wallet_principal : String
  pub rp_id : Bytes
  pub pubkey_hex : Bytes
  pub operations : List SignedOperation

-- `Buffer.from(text, "utf8")`, for code units below 256.
unfoldable pub utf8 : Bytes → Bytes
utf8 [] = []
utf8 (u ∷ us) =
    let rest = utf8 us in if ltb u 128 then u ∷ rest else (192 + u / 64) ∷ (128 + u % 64) ∷ rest

-- The suffix of the client data after the challenge.
unfoldable pub build_client_data_suffix_for_rp_id : Bytes → Bytes
build_client_data_suffix_for_rp_id rp_id =
    utf8 (codes "\",\"origin\":\"https://" ++ (rp_id ++ codes "\",\"crossOrigin\":false}"))

unfoldable pub client_data_suffix : Bytes
unfolding build_client_data_suffix_for_rp_id
client_data_suffix = build_client_data_suffix_for_rp_id test_rp_id

module _ (c : Crypto) where
  -- Evaluated when the module is loaded; the simulations that import it do not start without it.
  unfoldable pub check_rp_id_hash : Result SignerError (Unit {0})
  check_rp_id_hash =
      if bytes_beq (c.sha256 test_rp_id) fak_fun_hash then returned tt else thrown rp_id_mismatch

  unfoldable pub build_authenticator_data_for_rp_id : Bytes → Bytes
  build_authenticator_data_for_rp_id rp_id =
      c.sha256 rp_id ++ ((0x05 ∷ []) ++ (0x00 ∷ 0x00 ∷ 0x00 ∷ 0x05 ∷ []))

  unfoldable pub build_authenticator_data : Bytes
  build_authenticator_data =
      c.sha256 test_rp_id ++ ((0x05 ∷ []) ++ (0x00 ∷ 0x00 ∷ 0x00 ∷ 0x05 ∷ []))

  unfoldable pub generate_keypair : Bytes → Keypair
  generate_keypair secret_key = record {
    priv_key = secret_key;
    priv_key_hex = to_hex secret_key;
    pub_key = c.public_key secret_key;
    pub_key_hex = to_hex (c.public_key secret_key);
    pub_key_uncompressed_hex = to_hex (c.public_key_uncompressed secret_key);
  }

  -- What both signing functions do once they have their authenticator data and suffix.
  unfoldable pub assertion_over : Bytes → Bytes → Bytes → Bytes → Assertion
  assertion_over challenge priv_key authenticator_data suffix =
      let client_data_json = client_data_prefix ++ (base64url challenge ++ suffix) in
      let signed_digest = c.sha256 (authenticator_data ++ c.sha256 client_data_json) in
      record {
        signature_hex = zero_x (to_hex (c.sign signed_digest priv_key));
        authenticator_data_hex = zero_x (to_hex authenticator_data);
        client_data_prefix_hex = zero_x (to_hex client_data_prefix);
        client_data_suffix_hex = zero_x (to_hex suffix);
      }

  unfoldable pub sign_challenge : Bytes → Bytes → Result SignerError Assertion
  unfolding assertion_over build_authenticator_data client_data_suffix
  sign_challenge challenge priv_key =
      if nat_beq (length challenge) 32
      then returned (assertion_over challenge priv_key build_authenticator_data client_data_suffix)
      else thrown (challenge_length (length challenge))

  unfoldable pub sign_challenge_with_rp_id : Bytes → Bytes → Bytes → Result SignerError Assertion
  unfolding assertion_over build_authenticator_data_for_rp_id build_client_data_suffix_for_rp_id
  sign_challenge_with_rp_id challenge priv_key rp_id =
      if nat_beq (length challenge) 32
      then returned (
          assertion_over challenge priv_key (build_authenticator_data_for_rp_id rp_id)
            (build_client_data_suffix_for_rp_id rp_id))
      else thrown (challenge_length (length challenge))

  unfoldable pub sign_operation : Bytes → Operation → Result SignerError SignedOperation
  unfolding sign_challenge
  sign_operation priv_key op = do
    assertion ← sign_challenge op.challenge priv_key
    returned (record {
      auth_id = op.auth_id;
      label = op.label;
      challenge_hex = zero_x (to_hex op.challenge);
      assertion = assertion;
    })

  -- `operations.map((op) => ...)`; the first throw ends it.
  unfoldable pub sign_operations :
      Bytes → List Operation → Result SignerError (List SignedOperation)
  unfolding sign_operation
  sign_operations priv_key [] = returned []
  sign_operations priv_key (op ∷ ops) =
      let rest = sign_operations priv_key ops in
      (do first ← sign_operation priv_key op; signed ← rest; returned (first ∷ signed))

  unfoldable pub build_signed_bundle :
      String → Bytes → Bytes → List Operation → Result SignerError SignedBundle
  unfolding sign_operations
  build_signed_bundle wallet_principal pub_key_hex priv_key operations = do
    signed ← sign_operations priv_key operations
    returned (record {
      wallet_principal = wallet_principal;
      rp_id = test_rp_id;
      pubkey_hex = zero_x pub_key_hex;
      operations = signed;
    })
