-- ===== src/Webauthn/Assertion.antt =====
-- What the signer emits, the verifier contract accepts.
use pillar_wallets_xyz.Base.{
  ◌<◌, ◌≡◌, ap, inl, inr, ltb, Bool-cases, true, some, [], ◌∷◌, ◌++◌, arith, Bytes, length, All,
  All-append, take-append, le→leb, length-append, get_elem?-drop, drop-append, codes,
}
use pillar_wallets_xyz.Clarity.Outcome.{ok}
use pillar_wallets_xyz.Encoding.Hex.{hex_buffer, hex_buffer-zero_x}
use pillar_wallets_xyz.Encoding.Base64.{base64url}
use pillar_wallets_xyz.Webauthn.Crypto.{Crypto, IsLawful}
use pillar_wallets_xyz.Webauthn.Challenge.{base64url_32-eq-base64url}
use pillar_wallets_xyz.Webauthn.Verifier.{
  verify_webauthn_signature, get_rp_id_hash, is_user_verified,
}
use pillar_wallets_xyz.Webauthn.Signer.{
  assertion_over, client_data_prefix, build_authenticator_data_for_rp_id,
  build_client_data_suffix_for_rp_id, utf8,
}

utf8-bytes : (text : Bytes) → All (λ x. x < 256) text → All (λ x. x < 256) (utf8 text)
unfolding utf8
utf8-bytes [] h = tt
utf8-bytes (u ∷ us) h = elim (Bool-cases (ltb u 128)) [
  | inl small ↦ rw small (h.0, utf8-bytes us h.1)
  | inr large ↦ rw large (omega arith, (omega arith, utf8-bytes us h.1))
]

module _ (c : Crypto) (lawful : IsLawful c) where
  -- Any split of the signed client data around the encoded challenge passes.
  pub split_verifies :
      (k auth json prefix challenge suffix : Bytes)
      → length challenge ≡ 32
      → All (λ x. x < 256) challenge
      → prefix ++ (base64url challenge ++ suffix) ≡ json
      → verify_webauthn_signature c
          (c.public_key k)
          challenge
          auth
          prefix
          suffix
          (c.sign (c.sha256 (auth ++ c.sha256 json)) k)
        ≡ ok true
  unfolding verify_webauthn_signature
  split_verifies k auth json prefix challenge suffix len bytes e =
      rw (base64url_32-eq-base64url challenge len bytes, e, lawful.sign_verifies)

  -- The fields of an assertion, decoded from their hexadecimal texts.
  pub record Decodes (challenge k auth suffix : Bytes) : Type 0 where
    pub auth_decodes :
        hex_buffer (assertion_over c challenge k auth suffix).authenticator_data_hex ≡ auth
    pub prefix_decodes :
        hex_buffer (assertion_over c challenge k auth suffix).client_data_prefix_hex
        ≡ client_data_prefix
    pub suffix_decodes :
        hex_buffer (assertion_over c challenge k auth suffix).client_data_suffix_hex ≡ suffix
    pub signature_decodes :
        hex_buffer (assertion_over c challenge k auth suffix).signature_hex
        ≡ c.sign
            (c.sha256 (auth ++ c.sha256 (client_data_prefix ++ (base64url challenge ++ suffix))))
            k

  pub assertion_over-Decodes :
      (challenge k auth suffix : Bytes)
      → All (λ x. x < 256) auth
      → All (λ x. x < 256) suffix
      → Decodes challenge k auth suffix
  assertion_over-Decodes challenge k auth suffix ha hs = record {
    auth_decodes = unfold assertion_over in hex_buffer-zero_x auth ha;
    prefix_decodes = unfold assertion_over in hex_buffer-zero_x client_data_prefix (omega arith);
    suffix_decodes = unfold assertion_over in hex_buffer-zero_x suffix hs;
    signature_decodes =
        unfold assertion_over in hex_buffer-zero_x (c.sign _ k) (lawful.sign_bytes _ k);
  }

  -- The authenticator data carries the hash of the relying party and the user-verified flag.
  pub build_authenticator_data_for_rp_id-rp_id :
      (rp_id : Bytes)
      → get_rp_id_hash (build_authenticator_data_for_rp_id c rp_id) ≡ some (c.sha256 rp_id)
  unfolding get_rp_id_hash build_authenticator_data_for_rp_id
  build_authenticator_data_for_rp_id-rp_id rp_id =
      rw
        (le→leb 32 (length (c.sha256 rp_id ++ flags))
          (omega (arith, length-append (c.sha256 rp_id) flags, lawful.sha256_length rp_id)))
        (ap some (take-append 32 (c.sha256 rp_id) flags (lawful.sha256_length rp_id)))
    where
      flags : Bytes
      flags = 0x05 ∷ 0x00 ∷ 0x00 ∷ 0x00 ∷ 0x05 ∷ []

  pub build_authenticator_data_for_rp_id-is_user_verified :
      (rp_id : Bytes) → is_user_verified (build_authenticator_data_for_rp_id c rp_id) ≡ true
  unfolding is_user_verified build_authenticator_data_for_rp_id
  build_authenticator_data_for_rp_id-is_user_verified rp_id = rw (
    get_elem?-drop 32 0 (c.sha256 rp_id ++ flags),
    drop-append 32 (c.sha256 rp_id) flags (lawful.sha256_length rp_id),
  )
    where
      flags : Bytes
      flags = 0x05 ∷ 0x00 ∷ 0x00 ∷ 0x00 ∷ 0x05 ∷ []

  pub build_authenticator_data_for_rp_id-bytes :
      (rp_id : Bytes) → All (λ x. x < 256) (build_authenticator_data_for_rp_id c rp_id)
  unfolding build_authenticator_data_for_rp_id
  build_authenticator_data_for_rp_id-bytes rp_id =
      All-append (λ x. x < 256) (c.sha256 rp_id) _ (lawful.sha256_bytes rp_id) (omega arith)

  pub build_client_data_suffix_for_rp_id-bytes :
      (rp_id : Bytes)
      → All (λ x. x < 256) rp_id
      → All (λ x. x < 256) (build_client_data_suffix_for_rp_id rp_id)
  unfolding build_client_data_suffix_for_rp_id
  build_client_data_suffix_for_rp_id-bytes rp_id h = utf8-bytes _ (
      All-append (λ x. x < 256) (codes "\",\"origin\":\"https://") _ (omega arith)
        (All-append (λ x. x < 256) rp_id _ h (omega arith)))
