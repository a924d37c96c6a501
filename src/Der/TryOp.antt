-- ===== src/Der/TryOp.antt =====
-- verify-sig.mjs: `tryOp` rebuilds the digest that a passkey signed and reports which verifiers
-- accept the signature over it.
use pillar_wallets_xyz.Base.{
  ℕ, ◌+◌, ◌*◌, ◌/◌, Bool, true, false, [], ◌∷◌, ◌++◌, Bytes, codes, slice, drop, leb, if◌then◌else◌,
}
use pillar_wallets_xyz.Encoding.Hex.{hex_buffer}
use pillar_wallets_xyz.Encoding.Base64.{base64url}
use pillar_wallets_xyz.Webauthn.Crypto.{Crypto}
use pillar_wallets_xyz.Der.Encode.{sig_der}

-- The three verifiers: @noble/curves with low `s` only, with any `s`, and Node's crypto, which
-- takes the uncompressed point and a DER signature.
pub record Verifiers : Type 0 where
  pub noble_low_s : Bytes → Bytes → Bytes → Bool
  pub noble_any_s : Bytes → Bytes → Bytes → Bool
  pub to_uncompressed : Bytes → Bytes
  pub node_verify : Bytes → Bytes → Bytes → Bool

abbrev pub try_op_pubkey : Bytes
unfolding hex_buffer
try_op_pubkey =
    hex_buffer (codes "025e3d05b145ce68cd287acb6f35e79dfcc875b834046a16057dbc774e0bf3eacf")

-- `BigInt("0x" + bytes)`
unfoldable pub big_endian : ℕ → Bytes → ℕ
big_endian acc [] = acc
big_endian acc (b ∷ bs) = big_endian (acc * 256 + b) bs

abbrev pub p256_order : ℕ
p256_order = 0xffffffff00000000ffffffffffffffffbce6faada7179e84f3b9cac2fc632551

unfoldable pub s_bucket : Bytes → Bytes
unfolding big_endian
s_bucket signature =
    if leb (big_endian 0 (slice signature 32 64)) (p256_order / 2)
    then codes "low-s"
    else codes "HIGH-S"

-- The authenticator data, and the client data around the challenge.
unfoldable pub try_op_digest : Crypto → Bytes → Bytes
unfolding hex_buffer
try_op_digest c challenge =
    let auth_data =
      hex_buffer
        (codes "b877fea5df49f6d2fe544db0c7ced754f117ade85f60266bc217db3b239f22490500000000") in
    let prefix =
      hex_buffer
        (codes "7b2274797065223a22776562617574686e2e676574222c226368616c6c656e6765223a22") in
    let suffix = hex_buffer (
      codes
        "222c226f726967696e223a2268747470733a2f2f66616b2e66756e222c2263726f73734f726967696e223a66616c73657d") in
    c.sha256 (auth_data ++ c.sha256 (prefix ++ (base64url challenge ++ suffix)))

abbrev bool_text : Bool → Bytes
bool_text true = codes "true"
bool_text false = codes "false"

abbrev spki_header : Bytes
unfolding hex_buffer
spki_header = hex_buffer (codes "3059301306072a8648ce3d020106082a8648ce3d03010703420004")

-- The line that it prints.
unfoldable pub try_op : Crypto → Verifiers → Bytes → Bytes → Bytes → Bytes
unfolding try_op_digest s_bucket sig_der hex_buffer
try_op c v name challenge_hex signature_hex =
    let signature = hex_buffer signature_hex in
    let digest = try_op_digest c (hex_buffer challenge_hex) in
    let low = v.noble_low_s signature digest try_op_pubkey in
    let any = v.noble_any_s signature digest try_op_pubkey in
    let spki = spki_header ++ drop 1 (v.to_uncompressed try_op_pubkey) in
    let der = sig_der (slice signature 0 32) (slice signature 32 64) in
    let node = v.node_verify digest spki der in
    name
    ++ (codes ": "
        ++ (s_bucket signature
            ++ (codes " noble=lowS="
                ++ (bool_text low
                    ++ (codes " anyS=" ++ (bool_text any ++ (codes " node=" ++ bool_text node)))))))
