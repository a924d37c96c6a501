-- ===== src/Multiplex.antt =====
-- simul-juice-safe-v6-webauthn-multiplex.js: one passkey assertion whose challenge holds three
-- operation hashes, and the three splits of its client data.
pub mod Laws
pub mod Refused
use pillar_wallets_xyz.Base.{
  ℕ, String, List, [], ◌∷◌, ◌++◌, Bytes, bytes_beq, codes, length, leb, if◌then◌else◌,
}
use pillar_wallets_xyz.Base.Result.{Result, returned, thrown, ◌>>=◌, ◌>>◌}
use pillar_wallets_xyz.Clarity.Value.{uint, principal, ascii, tuple, none_value, end, field}
use pillar_wallets_xyz.Encoding.Hex.{to_hex, zero_x}
use pillar_wallets_xyz.Encoding.Base64.{base64url}
use pillar_wallets_xyz.Sip018.{sip018_prefix, cv_sha256, wallet_domain_hash}
use pillar_wallets_xyz.Webauthn.Crypto.{Crypto}

abbrev pub wallet : String
wallet = "SPV9K21TBFAK4KNRJXF5DFP8N7W46G4V9RCJDC22.juice-safe-v6"

abbrev pub rp_id : Bytes
rp_id = codes "juiceofbtc.com"

abbrev pub json_prefix : Bytes
json_prefix = codes "{\"type\":\"webauthn.get\",\"challenge\":\""

abbrev pub json_suffix : Bytes
json_suffix = codes "\",\"origin\":\"https://juiceofbtc.com\",\"crossOrigin\":false}"

pub record StxTransfer : Type 0 where
  pub auth_id : ℕ
  pub amount : ℕ
  pub recipient : String

pub record Split : Type 0 where
  pub prefix : Bytes
  pub suffix : Bytes

pub data MultiplexError : Type 0 where
  recon_mismatch prefix_bound suffix_bound : ℕ → MultiplexError

pub record SplitHex : Type 0 where
  pub prefix_hex : Bytes
  pub suffix_hex : Bytes

pub record Multiplexed : Type 0 where
  pub message_hashes : List Bytes
  pub signature_hex : Bytes
  pub authenticator_data_hex : Bytes
  pub splits : List SplitHex
  pub challenge_chars : ℕ
  pub prefix_lens : List ℕ
  pub suffix_lens : List ℕ

-- The filler between the encoded hashes.
abbrev pub filler : Bytes
filler = codes "A"

module _ (c : Crypto) where
  unfoldable pub build_stx_transfer_hash : StxTransfer → Bytes
  build_stx_transfer_hash op = c.sha256 (
      sip018_prefix
      ++ (wallet_domain_hash c wallet
          ++ cv_sha256 c (
              tuple (
                field "topic" (ascii "stx-transfer") (
                  field "auth-id" (uint op.auth_id) (
                    field "amount" (uint op.amount) (
                      field "recipient" (principal op.recipient)
                        (field "memo" none_value end))))))))

  unfoldable pub build_authenticator_data : Bytes
  build_authenticator_data = c.sha256 rp_id ++ (0x05 ∷ 0x00 ∷ 0x00 ∷ 0x00 ∷ 0x05 ∷ [])

-- `Buffer.concat([hb[0], Ab, hb[1], Ab, hb[2]])`
unfoldable pub challenge_string : Bytes → Bytes → Bytes → Bytes
challenge_string h1 h2 h3 = h1 ++ (filler ++ (h2 ++ (filler ++ h3)))

unfoldable pub client_data_of : Bytes → Bytes → Bytes → Bytes
unfolding challenge_string
client_data_of h1 h2 h3 = json_prefix ++ (challenge_string h1 h2 h3 ++ json_suffix)

unfoldable pub split1 : Bytes → Bytes → Bytes → Split
split1 h1 h2 h3 = record {
  prefix = json_prefix;
  suffix = filler ++ (h2 ++ (filler ++ (h3 ++ json_suffix)));
}

unfoldable pub split2 : Bytes → Bytes → Bytes → Split
split2 h1 h2 h3 = record {
  prefix = json_prefix ++ (h1 ++ filler);
  suffix = filler ++ (h3 ++ json_suffix);
}

unfoldable pub split3 : Bytes → Bytes → Bytes → Split
split3 h1 h2 h3 = record {
  prefix = json_prefix ++ (h1 ++ (filler ++ (h2 ++ filler)));
  suffix = json_suffix;
}

-- One round of `splits.forEach`: the three tests and their throws, for split number `i`.
unfoldable pub check_split : Bytes → ℕ → Bytes → Split → Result MultiplexError (Unit {0})
check_split client_data i h s =
    if bytes_beq (s.prefix ++ (h ++ s.suffix)) client_data
    then if leb (length s.prefix) 128
      then if leb (length s.suffix) 512 then returned tt else thrown (suffix_bound i)
      else thrown (prefix_bound i)
    else thrown (recon_mismatch i)

abbrev pub split_hex : Split → SplitHex
split_hex s = record {
  prefix_hex = zero_x (to_hex s.prefix);
  suffix_hex = zero_x (to_hex s.suffix);
}

unfoldable pub multiplex_sign :
    (c : Crypto)
    → Bytes
    → StxTransfer
    → StxTransfer
    → StxTransfer
    → Result MultiplexError Multiplexed
unfolding build_stx_transfer_hash build_authenticator_data check_split
multiplex_sign c priv_key op1 op2 op3 =
    let m1 = build_stx_transfer_hash c op1 in
    let m2 = build_stx_transfer_hash c op2 in
    let m3 = build_stx_transfer_hash c op3 in
    let h1 = base64url m1 in
    let h2 = base64url m2 in
    let h3 = base64url m3 in
    let client_data = client_data_of h1 h2 h3 in
    let auth_data = build_authenticator_data c in
    let sig = c.sign (c.sha256 (auth_data ++ c.sha256 client_data)) priv_key in
    let s1 = split1 h1 h2 h3 in
    let s2 = split2 h1 h2 h3 in
    let s3 = split3 h1 h2 h3 in
    (do
      check_split client_data 1 h1 s1
      check_split client_data 2 h2 s2
      check_split client_data 3 h3 s3
      returned (record {
        message_hashes = m1 ∷ m2 ∷ m3 ∷ [];
        signature_hex = zero_x (to_hex sig);
        authenticator_data_hex = zero_x (to_hex auth_data);
        splits = split_hex s1 ∷ split_hex s2 ∷ split_hex s3 ∷ [];
        challenge_chars = length (challenge_string h1 h2 h3);
        prefix_lens = length s1.prefix ∷ length s2.prefix ∷ length s3.prefix ∷ [];
        suffix_lens = length s1.suffix ∷ length s2.suffix ∷ length s3.suffix ∷ [];
      }))
