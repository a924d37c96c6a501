-- ===== src/Tests/Passkey.antt =====
-- The theorems on calls that a passkey signs, at a wallet with one registered key.
use pillar_wallets_xyz.Base.{
  arith, ℕ, ◌≡◌, refl, string_eq, bytes_eq, nat_eq, true, false, [], ◌∷◌, ◌++◌, Bytes, none, some,
  insert, lookup, delete, codes, ◌==◌, if◌then◌else◌,
}
use pillar_wallets_xyz.Clarity.Outcome.{ok}
use pillar_wallets_xyz.Clarity.Contract.{◌>>=◌, lift, require, gets, modify, advance, panicking}
use pillar_wallets_xyz.Encoding.Base64.{base64url, to_base64, strip_padding, url_safe, base64_char}
use pillar_wallets_xyz.Webauthn.Verifier
use pillar_wallets_xyz.Webauthn.Anchored.{
  canonical_prefix, challenge_is_anchored, verify_webauthn_signature,
}
use pillar_wallets_xyz.Webauthn.Anchored.Laws.{verify_webauthn_signature_unique}
use pillar_wallets_xyz.Safe.State.{initial, is_admin}
use pillar_wallets_xyz.Safe.State.Code
use pillar_wallets_xyz.Safe.Hashes.{
  build_propose_recovery_hash, build_confirm_transfer_hash, get_domain_hash, message_hash,
}
use pillar_wallets_xyz.Safe.External.{External, Chain, Setting, read, update, outside, in_world}
use pillar_wallets_xyz.Safe.Signature.{
  SigAuth, is_authorized, is_admin_pubkey, verify_signature, consume_signature, is_assertion_used,
  is_hash_used, assertion_id,
}
use pillar_wallets_xyz.Safe.Spending.{pay_gas_if}
use pillar_wallets_xyz.Safe.Operations.{update_activity, by_passkey}
use pillar_wallets_xyz.Safe.Ownership.{propose_recovery, confirm_transfer_wallet, hand_over}
use pillar_wallets_xyz.Safe.Entry.{Entry, exec, setting}
use pillar_wallets_xyz.Safe.Reentry.{reentrant}
use pillar_wallets_xyz.Safe.Handover.{confirm_transfer_wallet-admins}
use pillar_wallets_xyz.Multiplex.{split1, split2, split3}
use pillar_wallets_xyz.Multiplex.Refused.{splits-refused}
use pillar_wallets_xyz.Tests.Toy.{toy, encode, encode_fields, encode_values}
use pillar_wallets_xyz.Tests.World.{after, calm, calm-LeavesSafe, calling_back, wallet, at_block}

abbrev key : Bytes
key = toy.public_key (7 ∷ [])

abbrev authenticator_data : Bytes
authenticator_data = Code.rp_id_hash_juiceofbtc_com ++ (0x05 ∷ 0 ∷ 0 ∷ 0 ∷ 1 ∷ [])

abbrev suffix : Bytes
suffix = codes "\",\"origin\":\"https://juiceofbtc.com\"}"

-- What the passkey answers to a challenge.
abbrev signed : Bytes → Bytes
signed challenge =
    toy.sign
      (toy.sha256
        (authenticator_data ++ toy.sha256 (canonical_prefix ++ (base64url challenge ++ suffix))))
      (7 ∷ [])

abbrev answer : ℕ → Bytes → SigAuth
answer id hash = record {
  auth_id = id;
  pubkey = key;
  signature = signed hash;
  authenticator_data = authenticator_data;
  client_data_prefix = canonical_prefix;
  client_data_suffix = suffix;
}

abbrev held : Chain calm
unfolding initial
held = record {
  safe = record (initial 1000) {
    owner = "SP1.owner";
    pending_transfer = "SP1.buyer";
    admins = ("SP1.owner", true) ∷ [];
    pubkey_to_admin = (key, "SP1.owner") ∷ [];
    used_assertions = (7 ∷ [], true) ∷ [];
  };
  world = 0;
}

abbrev setting_now : Setting
setting_now = setting toy calm (at_block "SP1.anyone" 1010)

abbrev hash : Bytes
hash = toy.sha256 (5 ∷ [])

verify_webauthn_signature_unique_example : hash ≡ hash
unfolding verify_webauthn_signature challenge_is_anchored Verifier.verify_webauthn_signature
    Verifier.compute_signed_digest Verifier.compute_client_data_hash Verifier.base64url_32
    Verifier.byte_at Verifier.enc3 Verifier.enc2 Verifier.b64_char base64url to_base64 strip_padding
    url_safe base64_char
verify_webauthn_signature_unique_example =
    verify_webauthn_signature_unique toy key key hash hash authenticator_data authenticator_data
      canonical_prefix canonical_prefix suffix suffix (signed hash) (signed hash) refl (omega arith)
      refl (omega arith) refl refl refl

abbrev recovery_sig : SigAuth
recovery_sig = answer 4 (build_propose_recovery_hash toy 1 wallet "SP1.recovery" 4)

-- The station that is paid plays the same signature again.
abbrev proposal : Entry
proposal = Entry.propose_recovery "SP1.recovery" recovery_sig (some "SP1.station")

abbrev replayed : External
replayed = reentrant toy calm (calling_back (at_block wallet 1010) proposal) 2

abbrev setting_then : Setting
setting_then = setting toy replayed (at_block "SP1.anyone" 1010)

abbrev proposed : Unit {0} × Chain replayed
proposed = after held (exec setting_then proposal held)

abbrev transfer_sig : SigAuth
transfer_sig = answer 5 (build_confirm_transfer_hash toy 1 wallet "SP1.buyer" 5)

abbrev sold : Unit {0} × Chain calm
sold = after held (confirm_transfer_wallet setting_now transfer_sig none held)

confirm_transfer_wallet-admins_example :
    (sold.1.safe.owner ≡ held.safe.pending_transfer)
    × (is_admin "SP1.buyer" sold.1.safe ≡ (
        if held.safe.owner == "SP1.buyer"
        then false
        else (if held.safe.pending_transfer == "SP1.buyer"
            then true
            else is_admin "SP1.buyer" held.safe)))
unfolding confirm_transfer_wallet hand_over by_passkey is_authorized consume_signature
    verify_signature is_admin_pubkey is_admin is_assertion_used is_hash_used assertion_id pay_gas_if
    update_activity ◌>>=◌ lift require gets modify advance panicking read update outside in_world
    lookup insert delete verify_webauthn_signature challenge_is_anchored
    Verifier.verify_webauthn_signature Verifier.compute_signed_digest
    Verifier.compute_client_data_hash Verifier.base64url_32 Verifier.byte_at Verifier.enc3
    Verifier.enc2 Verifier.b64_char base64url to_base64 strip_padding url_safe base64_char
    Verifier.get_rp_id_hash Verifier.is_user_verified Verifier.get_flags_byte
    build_confirm_transfer_hash get_domain_hash message_hash encode encode_fields encode_values
    initial
confirm_transfer_wallet-admins_example =
    confirm_transfer_wallet-admins setting_now transfer_sig none held sold "SP1.buyer"
      calm-LeavesSafe refl

splits-refused_example :
    (verify_webauthn_signature toy key hash authenticator_data
        (split1 hash hash hash).prefix
        (split1 hash hash hash).suffix
        (signed hash)
      ≡ ok false)
    × (verify_webauthn_signature toy key hash authenticator_data
          (split2 hash hash hash).prefix
          (split2 hash hash hash).suffix
          (signed hash)
        ≡ ok false)
    × (verify_webauthn_signature toy key hash authenticator_data
          (split3 hash hash hash).prefix
          (split3 hash hash hash).suffix
          (signed hash)
        ≡ ok false)
splits-refused_example = splits-refused toy key hash authenticator_data (signed hash) hash hash hash
