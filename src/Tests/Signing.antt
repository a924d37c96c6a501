-- ===== src/Tests/Signing.antt =====
-- The theorems on encodings, signatures and hashes at concrete inputs.
use pillar_wallets_xyz.Base.{
  arith, ◌≡◌, refl, true, [], ◌∷◌, ◌++◌, Bytes, bytes_beq, codes, replicate, ◌||◌, if◌then◌else◌,
}
use pillar_wallets_xyz.Base.Result.{returned}
use pillar_wallets_xyz.Clarity.Outcome.{ok, err}
use pillar_wallets_xyz.Encoding.Hex.{hex_buffer}
use pillar_wallets_xyz.Encoding.Base64.{base64url}
use pillar_wallets_xyz.Encoding.Base64.Decode.{decode_url, decode_url-base64url}
use pillar_wallets_xyz.Webauthn.Verifier.{base64url_32}
use pillar_wallets_xyz.Webauthn.Challenge.{base64url_32-eq-base64url}
use pillar_wallets_xyz.Webauthn.Signer.{Assertion, sign_challenge, sign_challenge_with_rp_id}
use pillar_wallets_xyz.Der.Parse.{der_to_raw_signature}
use pillar_wallets_xyz.Der.Encode.{sig_der}
use pillar_wallets_xyz.Der.Accepts.{der_to_raw_signature-Accepted, Accepted}
use pillar_wallets_xyz.Der.RoundTrip.{der_to_raw_signature-sig_der}
use pillar_wallets_xyz.Multiplex.{Multiplexed, StxTransfer, multiplex_sign, build_stx_transfer_hash}
use pillar_wallets_xyz.Multiplex.Laws.{multiplex_sign_authorises, AllVerify}
use pillar_wallets_xyz.Wager.State.Code
use pillar_wallets_xyz.Wager.Signature.{verify_signature}
use pillar_wallets_xyz.Wager.Hashes.{
  build_register_wallet_hash, build_wager_hash, build_withdraw_hash,
}
use pillar_wallets_xyz.Simulation.Common.{
  challenge, spec_register_wallet, spec_wager, spec_withdraw, wager,
}
use pillar_wallets_xyz.Simulation.Agreement.{challenge-build_hashes}
use pillar_wallets_xyz.Simulation.Accepted.{
  sig_of, sign_challenge_with_rp_id-verify_signature, sign_challenge-verify_signature,
}
use pillar_wallets_xyz.Tests.Toy.{toy, toy-IsLawful}

abbrev secret : Bytes
secret = 9 ∷ 8 ∷ 7 ∷ []

abbrev hash : Bytes
hash = replicate 31 200 ++ (17 ∷ [])

decode_url-base64url_example :
    decode_url (base64url (0 ∷ 171 ∷ 255 ∷ 62 ∷ [])) ≡ 0 ∷ 171 ∷ 255 ∷ 62 ∷ []
decode_url-base64url_example = decode_url-base64url (0 ∷ 171 ∷ 255 ∷ 62 ∷ []) (omega arith)

base64url_32-eq-base64url_example : base64url_32 hash ≡ ok (base64url hash)
base64url_32-eq-base64url_example = base64url_32-eq-base64url hash refl (omega arith)

der_to_raw_signature-sig_der_example :
    der_to_raw_signature (sig_der hash (replicate 32 1)) ≡ returned (hash ++ replicate 32 1)
der_to_raw_signature-sig_der_example = der_to_raw_signature-sig_der hash (replicate 32 1) refl refl

der_to_raw_signature-Accepted_example :
    Accepted (sig_der hash (replicate 32 1)) (hash ++ replicate 32 1)
der_to_raw_signature-Accepted_example =
    der_to_raw_signature-Accepted (sig_der hash (replicate 32 1)) (hash ++ replicate 32 1)
      (der_to_raw_signature-sig_der hash (replicate 32 1) refl refl)

sign_challenge-verify_signature_example :
    (a : Assertion) × (sign_challenge toy hash secret ≡ returned a)
    × (verify_signature toy hash (toy.public_key secret) (sig_of 3 a) ≡ ok true)
sign_challenge-verify_signature_example =
    sign_challenge-verify_signature toy toy-IsLawful secret hash 3 refl (omega arith)

sign_challenge_with_rp_id-verify_signature_example :
    (a : Assertion) × (sign_challenge_with_rp_id toy hash secret (codes "evil.example")
      ≡ returned a)
    × (verify_signature toy hash (toy.public_key secret) (sig_of 3 a) ≡ (
        if bytes_beq (toy.sha256 (codes "evil.example")) Code.rp_id_hash_fakfun_com
          || bytes_beq (toy.sha256 (codes "evil.example")) Code.rp_id_hash_fak_fun
        then ok true
        else err Code.invalid_signature))
sign_challenge_with_rp_id-verify_signature_example =
    sign_challenge_with_rp_id-verify_signature toy toy-IsLawful secret hash (codes "evil.example") 3
      refl (omega arith) (omega arith)

challenge-build_hashes_example :
    (challenge toy (spec_register_wallet 1 "SP1.wallet")
      ≡ build_register_wallet_hash toy 1 wager 1 "SP1.wallet")
    × (challenge toy (spec_wager 1 (codes "0x02ab") "SP1.token" 500)
        ≡ build_wager_hash toy 1 wager 1 (hex_buffer (codes "0x02ab")) "SP1.token" 500)
    × (challenge toy (spec_withdraw 1 500 "SP1.me" "SP1.token")
        ≡ build_withdraw_hash toy 1 wager 1 500 "SP1.me" "SP1.token")
challenge-build_hashes_example =
    challenge-build_hashes toy toy-IsLawful 1 500 (codes "0x02ab") "SP1.token" "SP1.wallet" "SP1.me"

abbrev transfer1 : StxTransfer
transfer1 = record { auth_id = 1; amount = 1000000; recipient = "SP1.a" }

abbrev transfer2 : StxTransfer
transfer2 = record { auth_id = 2; amount = 5; recipient = "SP1.b" }

multiplex_sign_authorises_example :
    (out : Multiplexed) × (multiplex_sign toy secret transfer1 transfer2 transfer1 ≡ returned out)
    × (out.challenge_chars ≡ 131)
    × (out.prefix_lens ≡ 36 ∷ 80 ∷ 124 ∷ [])
    × (out.message_hashes
        ≡ build_stx_transfer_hash toy transfer1
          ∷ build_stx_transfer_hash toy transfer2
          ∷ build_stx_transfer_hash toy transfer1
          ∷ [])
    × AllVerify toy
        (toy.public_key secret)
        (hex_buffer out.authenticator_data_hex)
        (hex_buffer out.signature_hex)
        out.message_hashes
        out.splits
multiplex_sign_authorises_example =
    multiplex_sign_authorises toy toy-IsLawful secret transfer1 transfer2 transfer1
