-- ===== src/Webauthn/Verifier.antt =====
-- contracts/clarity-webauthn.clar. A read-only function that may panic returns an `Outcome`.
use pillar_wallets_xyz.Base.{
  ℕ, ◌*◌, ◌/◌, ◌^◌, bit_and, bit_or, Bool, false, Option, none, some, [], ◌∷◌, ◌++◌, Bytes, codes,
  get_elem?, take, length, leb, ◌==◌, nat_eq, bytes_eq, if◌then◌else◌,
}
use pillar_wallets_xyz.Clarity.Outcome.{Outcome, ok, ◌>>=◌, ◌>>◌, asserts, unwrap, unwrap_panic}
use pillar_wallets_xyz.Webauthn.Crypto.{Crypto}

abbrev b64_alphabet : Bytes
b64_alphabet = codes "ABCDEFGHIJKLMNOPQRSTUVWXYZabcdefghijklmnopqrstuvwxyz0123456789-_"

pub err_bad_auth_data : ℕ
err_bad_auth_data = 200

pub err_bad_rp_id : ℕ
err_bad_rp_id = 201

pub err_user_not_present : ℕ
err_user_not_present = 202

unfoldable pub b64_char : ℕ → Outcome ℕ
b64_char sextet = unwrap_panic (get_elem? b64_alphabet sextet)

unfoldable pub byte_at : Bytes → ℕ → Outcome ℕ
byte_at b i = unwrap_panic (get_elem? b i)

unfoldable pub enc3 : ℕ → ℕ → ℕ → Outcome Bytes
enc3 b0 b1 b2 = do
  c0 ← b64_char (b0 / 2 ^ 2)
  c1 ← b64_char (bit_or (bit_and b0 3 * 2 ^ 4) (b1 / 2 ^ 4))
  c2 ← b64_char (bit_or (bit_and b1 15 * 2 ^ 2) (b2 / 2 ^ 6))
  c3 ← b64_char (bit_and b2 63)
  ok ((c0 ∷ c1 ∷ []) ++ (c2 ∷ c3 ∷ []))

unfoldable pub enc2 : ℕ → ℕ → Outcome Bytes
enc2 b0 b1 = do
  c0 ← b64_char (b0 / 2 ^ 2)
  c1 ← b64_char (bit_or (bit_and b0 3 * 2 ^ 4) (b1 / 2 ^ 4))
  c2 ← b64_char (bit_and b1 15 * 2 ^ 2)
  ok ((c0 ∷ c1 ∷ []) ++ (c2 ∷ []))

-- `(enc3 (byte-at b i) (byte-at b j) (byte-at b k))`
abbrev enc3_at : Bytes → ℕ → ℕ → ℕ → Outcome Bytes
enc3_at b i j k = do b0 ← byte_at b i; b1 ← byte_at b j; b2 ← byte_at b k; enc3 b0 b1 b2

abbrev concat_outcome : Outcome Bytes → Outcome Bytes → Outcome Bytes
concat_outcome m n = do xs ← m; ys ← n; ok (xs ++ ys)

unfoldable pub base64url_32 : Bytes → Outcome Bytes
base64url_32 b = concat_outcome (enc3_at b 0 1 2) (
    concat_outcome (enc3_at b 3 4 5) (
      concat_outcome (enc3_at b 6 7 8) (
        concat_outcome (enc3_at b 9 10 11) (
          concat_outcome (enc3_at b 12 13 14) (
            concat_outcome (enc3_at b 15 16 17) (
              concat_outcome (enc3_at b 18 19 20) (
                concat_outcome (enc3_at b 21 22 23) (
                  concat_outcome (enc3_at b 24 25 26) (
                    concat_outcome (enc3_at b 27 28 29)
                      (do b0 ← byte_at b 30; b1 ← byte_at b 31; enc2 b0 b1))))))))))

-- `(slice? authenticator-data u0 u32)`
unfoldable pub get_rp_id_hash : Bytes → Option Bytes
get_rp_id_hash authenticator_data =
    if leb 32 (length authenticator_data) then some (take 32 authenticator_data) else none

unfoldable pub get_flags_byte : Bytes → Option ℕ
get_flags_byte authenticator_data = get_elem? authenticator_data 32

abbrev flag_set : ℕ → Option ℕ → Bool
flag_set mask none = false
flag_set mask (some flags) = bit_and flags mask == mask

unfoldable pub is_user_present : Bytes → Bool
unfolding get_flags_byte
is_user_present authenticator_data = flag_set 1 (get_flags_byte authenticator_data)

unfoldable pub is_user_verified : Bytes → Bool
unfolding get_flags_byte
is_user_verified authenticator_data = flag_set 4 (get_flags_byte authenticator_data)

module _ (c : Crypto) where
  unfoldable pub compute_client_data_hash : Bytes → Bytes → Bytes → Outcome Bytes
  compute_client_data_hash challenge prefix suffix = do
    encoded ← base64url_32 challenge
    ok (c.sha256 (prefix ++ (encoded ++ suffix)))

  unfoldable pub compute_signed_digest : Bytes → Bytes → Bytes → Bytes → Outcome Bytes
  unfolding compute_client_data_hash
  compute_signed_digest challenge authenticator_data prefix suffix = do
    client_data_hash ← compute_client_data_hash challenge prefix suffix
    ok (c.sha256 (authenticator_data ++ client_data_hash))

  unfoldable pub verify_webauthn_signature :
      Bytes → Bytes → Bytes → Bytes → Bytes → Bytes → Outcome Bool
  unfolding compute_signed_digest
  verify_webauthn_signature public_key challenge authenticator_data prefix suffix signature = do
    digest ← compute_signed_digest challenge authenticator_data prefix suffix
    ok (c.verify digest signature public_key)

  unfoldable pub verify_assertion :
      Bytes → Bytes → Bytes → Bytes → Bytes → Bytes → Bytes → Outcome Bool
  unfolding verify_webauthn_signature get_rp_id_hash get_flags_byte
  verify_assertion public_key challenge rp_id_hash authenticator_data prefix suffix signature = do
    auth_rp_id ← unwrap (get_rp_id_hash authenticator_data) err_bad_auth_data
    flags ← unwrap (get_flags_byte authenticator_data) err_bad_auth_data
    asserts (leb 37 (length authenticator_data)) err_bad_auth_data
    asserts (auth_rp_id == rp_id_hash) err_bad_rp_id
    asserts (bit_and flags 1 == 1) err_user_not_present
    verify_webauthn_signature public_key challenge authenticator_data prefix suffix signature
