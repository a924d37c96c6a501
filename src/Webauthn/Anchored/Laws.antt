-- ===== src/Webauthn/Anchored/Laws.antt =====
-- A signed client data stands for one challenge under clarity-5-webauthn-v4.clar, and the splits
-- of simul-juice-safe-v6-webauthn-multiplex.js do not pass.
use pillar_wallets_xyz.Base.{
  ◌<◌, ◌≡◌, sym, ap, ◌∙◌, inl, inr, true, false, ◌++◌, Bytes, bytes_beq_iff, length, All, take,
  drop, take-append, Bool-cases, &&-true_iff,
}
use pillar_wallets_xyz.Clarity.Outcome.{ok}
use pillar_wallets_xyz.Encoding.Base64.{base64url, length-base64url}
use pillar_wallets_xyz.Encoding.Base64.Decode.{base64url-injective}
use pillar_wallets_xyz.Webauthn.Crypto.{Crypto}
use pillar_wallets_xyz.Webauthn.Verifier
use pillar_wallets_xyz.Webauthn.Anchored.{
  canonical_prefix, challenge_is_anchored, verify_webauthn_signature,
}

-- What passes is anchored.
pub verified-anchored :
    (c : Crypto) (key challenge auth prefix suffix sig : Bytes)
    → verify_webauthn_signature c key challenge auth prefix suffix sig ≡ ok true
    → (challenge_is_anchored prefix suffix ≡ true)
      × (Verifier.verify_webauthn_signature c key challenge auth prefix suffix sig ≡ ok true)
unfolding verify_webauthn_signature
verified-anchored c key challenge auth prefix suffix sig e =
    elim (Bool-cases (challenge_is_anchored prefix suffix)) [
      | inl anchored ↦ (anchored, rw anchored at e)
      | inr free ↦ let refused : ok false ≡ ok true = rw free at e in absurd (cc)
    ]

prefix_of_anchored :
    (prefix suffix : Bytes) → challenge_is_anchored prefix suffix ≡ true → prefix ≡ canonical_prefix
unfolding challenge_is_anchored
prefix_of_anchored prefix suffix h =
    (bytes_beq_iff prefix canonical_prefix).0 ((&&-true_iff _ _).0 h).0

-- The encoded challenge is the 43 bytes after the prefix.
challenge_of_client_data :
    (encoded suffix : Bytes)
    → length encoded ≡ 43
    → take 43 (drop 36 (canonical_prefix ++ (encoded ++ suffix))) ≡ encoded
challenge_of_client_data encoded suffix len = take-append 43 encoded suffix len

-- If two challenges of 32 bytes pass the anchored verifier, under any keys, authenticator data
-- and signatures, with splits of one client data, then they are the same challenge.
pub verify_webauthn_signature_unique :
    (c : Crypto)
    (key1 key2 challenge1 challenge2 auth1 auth2 prefix1 prefix2 suffix1 suffix2 sig1 sig2 : Bytes)
    → length challenge1 ≡ 32
    → All (λ x. x < 256) challenge1
    → length challenge2 ≡ 32
    → All (λ x. x < 256) challenge2
    → prefix1 ++ (base64url challenge1 ++ suffix1) ≡ prefix2 ++ (base64url challenge2 ++ suffix2)
    → verify_webauthn_signature c key1 challenge1 auth1 prefix1 suffix1 sig1 ≡ ok true
    → verify_webauthn_signature c key2 challenge2 auth2 prefix2 suffix2 sig2 ≡ ok true
    → challenge1 ≡ challenge2
verify_webauthn_signature_unique c key1 key2 challenge1 challenge2 auth1 auth2 prefix1 prefix2
      suffix1 suffix2 sig1 sig2 len1 bytes1 len2 bytes2 same ok1 ok2 =
    let anchored1 = (verified-anchored c key1 challenge1 auth1 prefix1 suffix1 sig1 ok1).0 in
    let anchored2 = (verified-anchored c key2 challenge2 auth2 prefix2 suffix2 sig2 ok2).0 in
    let e1 = prefix_of_anchored prefix1 suffix1 anchored1 in
    let e2 = prefix_of_anchored prefix2 suffix2 anchored2 in
    let data1 : prefix1 ++ (base64url challenge1 ++ suffix1)
        ≡ canonical_prefix ++ (base64url challenge1 ++ suffix1) =
      ap (λ p. p ++ (base64url challenge1 ++ suffix1)) e1 in
    let data2 : prefix2 ++ (base64url challenge2 ++ suffix2)
        ≡ canonical_prefix ++ (base64url challenge2 ++ suffix2) =
      ap (λ p. p ++ (base64url challenge2 ++ suffix2)) e2 in
    let long1 = length-base64url 10 challenge1 len1 bytes1 in
    let long2 = length-base64url 10 challenge2 len2 bytes2 in
    base64url-injective challenge1 challenge2 bytes1 bytes2 (
      sym (challenge_of_client_data (base64url challenge1) suffix1 long1)
      ∙ ap (λ d. take 43 (drop 36 d)) (sym data1 ∙ same ∙ data2)
      ∙ challenge_of_client_data (base64url challenge2) suffix2 long2)
