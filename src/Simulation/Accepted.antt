-- ===== src/Simulation/Accepted.antt =====
-- game-wager-v2.clar accepts what lib-webauthn-test-signer.mjs signs.
use pillar_wallets_xyz.Base.{
  ℕ, ◌≡◌, ◌<◌, Bytes, Bool, true, false, refl, ap, ◌∙◌, ◌++◌, length, All, some, bytes_beq,
  bytes_eq, ◌||◌, nat_beq_iff, if◌then◌else◌, arith,
}
use pillar_wallets_xyz.Base.Result.{returned}
use pillar_wallets_xyz.Encoding.Hex.{hex_buffer}
use pillar_wallets_xyz.Encoding.Base64.{base64url}
use pillar_wallets_xyz.Clarity.Outcome.{ok, err}
use pillar_wallets_xyz.Webauthn.Crypto.{Crypto, IsLawful}
use pillar_wallets_xyz.Webauthn.Verifier.{
  get_rp_id_hash, is_user_verified, verify_webauthn_signature,
}
use pillar_wallets_xyz.Webauthn.Signer.{
  Assertion, sign_challenge, sign_challenge_with_rp_id, assertion_over, build_authenticator_data,
  build_authenticator_data_for_rp_id, client_data_suffix, build_client_data_suffix_for_rp_id,
  client_data_prefix, test_rp_id,
}
use pillar_wallets_xyz.Webauthn.Assertion.{
  Decodes, assertion_over-Decodes, split_verifies, build_authenticator_data_for_rp_id-rp_id,
  build_authenticator_data_for_rp_id-is_user_verified, build_authenticator_data_for_rp_id-bytes,
  build_client_data_suffix_for_rp_id-bytes,
}
use pillar_wallets_xyz.Wager.State.Code
use pillar_wallets_xyz.Wager.Signature.{SigAuth, verify_signature}

-- The signature tuple of a transaction, from an assertion.
abbrev pub sig_of : ℕ → Assertion → SigAuth
sig_of auth_id a = record {
  auth_id = auth_id;
  signature = hex_buffer a.signature_hex;
  authenticator_data = hex_buffer a.authenticator_data_hex;
  client_data_prefix = hex_buffer a.client_data_prefix_hex;
  client_data_suffix = hex_buffer a.client_data_suffix_hex;
}

module _ (c : Crypto) (lawful : IsLawful c) where
  -- The checks of `verify-signature`, one after another.
  checks :
      (hash pubkey : Bytes) (sig : SigAuth) (id : Bytes)
      → get_rp_id_hash sig.authenticator_data ≡ some id
      → bytes_beq id Code.rp_id_hash_fakfun_com || bytes_beq id Code.rp_id_hash_fak_fun ≡ true
      → is_user_verified sig.authenticator_data ≡ true
      → verify_webauthn_signature c pubkey hash sig.authenticator_data sig.client_data_prefix
          sig.client_data_suffix sig.signature
        ≡ ok true
      → verify_signature c hash pubkey sig ≡ ok true
  unfolding verify_signature
  checks hash pubkey sig id found known seen valid = rw (found, known, seen, valid) refl

  refused :
      (hash pubkey : Bytes) (sig : SigAuth) (id : Bytes)
      → get_rp_id_hash sig.authenticator_data ≡ some id
      → bytes_beq id Code.rp_id_hash_fakfun_com || bytes_beq id Code.rp_id_hash_fak_fun ≡ false
      → verify_signature c hash pubkey sig ≡ err Code.invalid_signature
  unfolding verify_signature
  refused hash pubkey sig id found unknown = rw (found, unknown) refl

  -- For lawful cryptography, a challenge of 32 bytes and a relying party named in bytes,
  -- signChallengeWithRpId returns an assertion, on which verify-signature of the escrow answers
  -- (ok true) if the SHA-256 of the name is one of its two constants and err-invalid-signature
  -- otherwise.
  pub sign_challenge_with_rp_id-verify_signature :
      (k hash rp_id : Bytes) (auth_id : ℕ)
      → length hash ≡ 32
      → All (λ x. x < 256) hash
      → All (λ x. x < 256) rp_id
      → (a : Assertion) × (sign_challenge_with_rp_id c hash k rp_id ≡ returned a)
        × (verify_signature c hash (c.public_key k) (sig_of auth_id a) ≡ (
            if bytes_beq (c.sha256 rp_id) Code.rp_id_hash_fakfun_com
              || bytes_beq (c.sha256 rp_id) Code.rp_id_hash_fak_fun
            then ok true
            else err Code.invalid_signature))
  unfolding sign_challenge_with_rp_id
  sign_challenge_with_rp_id-verify_signature k hash rp_id auth_id len bytes rp_bytes =
      (a, rw ((nat_beq_iff (length hash) 32).1 len) refl, by_rp_id _ refl)
    where
      auth : Bytes
      auth = build_authenticator_data_for_rp_id c rp_id

      suffix : Bytes
      suffix = build_client_data_suffix_for_rp_id rp_id

      a : Assertion
      a = assertion_over c hash k auth suffix

      d : Decodes c lawful hash k auth suffix
      d =
          assertion_over-Decodes c lawful hash k auth suffix
            (build_authenticator_data_for_rp_id-bytes c lawful rp_id)
            (build_client_data_suffix_for_rp_id-bytes c lawful rp_id rp_bytes)

      found : get_rp_id_hash (hex_buffer a.authenticator_data_hex) ≡ some (c.sha256 rp_id)
      found =
          ap get_rp_id_hash d.auth_decodes ∙ build_authenticator_data_for_rp_id-rp_id c lawful rp_id

      seen : is_user_verified (hex_buffer a.authenticator_data_hex) ≡ true
      seen =
          ap is_user_verified d.auth_decodes
          ∙ build_authenticator_data_for_rp_id-is_user_verified c lawful rp_id

      valid :
          verify_webauthn_signature c
            (c.public_key k)
            hash
            (hex_buffer a.authenticator_data_hex)
            (hex_buffer a.client_data_prefix_hex)
            (hex_buffer a.client_data_suffix_hex)
            (hex_buffer a.signature_hex)
          ≡ ok true
      valid =
          rw (d.auth_decodes, d.prefix_decodes, d.suffix_decodes, d.signature_decodes)
            (split_verifies c lawful k auth (client_data_prefix ++ (base64url hash ++ suffix))
              client_data_prefix hash suffix len bytes refl)

      by_rp_id :
          (known : Bool)
          → bytes_beq (c.sha256 rp_id) Code.rp_id_hash_fakfun_com
              || bytes_beq (c.sha256 rp_id) Code.rp_id_hash_fak_fun
            ≡ known
          → verify_signature c hash (c.public_key k) (sig_of auth_id a) ≡ (
              if bytes_beq (c.sha256 rp_id) Code.rp_id_hash_fakfun_com
                || bytes_beq (c.sha256 rp_id) Code.rp_id_hash_fak_fun
              then ok true
              else err Code.invalid_signature)
      by_rp_id true known =
          rw known (
            checks hash (c.public_key k) (sig_of auth_id a) (c.sha256 rp_id) found known seen valid)
      by_rp_id false known =
          rw known (refused hash (c.public_key k) (sig_of auth_id a) (c.sha256 rp_id) found known)

  -- For lawful cryptography and a challenge of 32 bytes, signChallenge returns an assertion, and
  -- verify-signature of the escrow answers (ok true) on it for the signer's public key.
  pub sign_challenge-verify_signature :
      (k hash : Bytes) (auth_id : ℕ)
      → length hash ≡ 32
      → All (λ x. x < 256) hash
      → (a : Assertion) × (sign_challenge c hash k ≡ returned a)
        × (verify_signature c hash (c.public_key k) (sig_of auth_id a) ≡ ok true)
  unfolding sign_challenge sign_challenge_with_rp_id build_authenticator_data
      build_authenticator_data_for_rp_id client_data_suffix
  sign_challenge-verify_signature k hash auth_id len bytes =
      let (a, signed, verdict) =
        sign_challenge_with_rp_id-verify_signature k hash test_rp_id auth_id len bytes
          (omega arith) in
      let known : bytes_beq (c.sha256 test_rp_id) Code.rp_id_hash_fakfun_com
            || bytes_beq (c.sha256 test_rp_id) Code.rp_id_hash_fak_fun
          ≡ true =
        rw lawful.sha256_fak_fun refl in
      (a, signed, verdict ∙ ap (λ b. if b then ok true else err Code.invalid_signature) known)
