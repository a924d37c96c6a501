-- ===== src/Safe/Signature.antt =====
-- `is-admin-calling`, `is-admin-pubkey`, `verify-signature`, `consume-signature` and
-- `is-authorized` of juice-safe-v7.clar.
use pillar_wallets_xyz.Base.{
  ℕ, Bool, true, false, not, Option, none, some, ◌++◌, Bytes, bytes_beq, String, lookup, insert,
  string_eq, bytes_eq,
}
use pillar_wallets_xyz.Clarity.Outcome.{unwrap}
use pillar_wallets_xyz.Clarity.Contract.{lift, require, ◌>>=◌, ◌>>◌}
use pillar_wallets_xyz.Webauthn.Verifier.{get_rp_id_hash, is_user_verified}
use pillar_wallets_xyz.Webauthn.Anchored.{verify_webauthn_signature}
use pillar_wallets_xyz.Webauthn.Crypto.{Crypto}
use pillar_wallets_xyz.Safe.State.{Safe, is_admin}
use pillar_wallets_xyz.Safe.State.Code
use pillar_wallets_xyz.Safe.External.{Setting, Call, read, update}

pub record SigAuth : Type 0 where
  pub auth_id : ℕ
  pub pubkey : Bytes
  pub signature : Bytes
  pub authenticator_data : Bytes
  pub client_data_prefix : Bytes
  pub client_data_suffix : Bytes

-- `(map-get? used-assertions id)` and `(map-get? used-pubkey-authorizations hash)`
unfoldable pub is_assertion_used : Bytes → Safe → Bool
is_assertion_used id s = elim (lookup id s.used_assertions) [ none ↦ false | some _ ↦ true ]

unfoldable pub is_hash_used : Bytes → Safe → Bool
is_hash_used hash s = elim (lookup hash s.used_pubkey_authorizations) [
  | none ↦ false
  | some _ ↦ true
]

unfoldable pub assertion_id : Crypto → SigAuth → Bytes
assertion_id c sig = c.sha256 (sig.authenticator_data ++ sig.signature)

abbrev pub mark_hash : Bytes → Bytes → Safe → Safe
mark_hash hash pubkey s = record s {
  used_pubkey_authorizations = insert hash pubkey s.used_pubkey_authorizations;
}

abbrev pub mark_assertion : Bytes → Safe → Safe
mark_assertion id s = record s { used_assertions = insert id true s.used_assertions }

module _ (x : Setting) where
  unfoldable pub is_admin_calling : String → Call x (Unit {0})
  is_admin_calling caller = do known ← read x (is_admin caller); require known Code.unauthorised

  unfoldable pub is_admin_pubkey : Bytes → Call x (Unit {0})
  is_admin_pubkey pubkey = do
    found ← read x (λ s. lookup pubkey s.pubkey_to_admin)
    user ← lift (unwrap found Code.unregistered_pubkey)
    known ← read x (is_admin user)
    require known Code.not_admin_pubkey

  unfoldable pub verify_signature : Bytes → SigAuth → Call x (Unit {0})
  verify_signature message_hash sig = do
    auth_rp_id ← lift (unwrap (get_rp_id_hash sig.authenticator_data) Code.invalid_signature)
    is_admin_pubkey sig.pubkey
    require (bytes_beq auth_rp_id Code.rp_id_hash_juiceofbtc_com) Code.invalid_signature
    require (is_user_verified sig.authenticator_data) Code.invalid_signature
    verified ← lift (
        verify_webauthn_signature x.crypto sig.pubkey message_hash sig.authenticator_data
          sig.client_data_prefix sig.client_data_suffix sig.signature)
    require verified Code.invalid_signature

  unfoldable pub consume_signature : Bytes → SigAuth → Call x (Unit {0})
  consume_signature message_hash sig = do
    verify_signature message_hash sig
    hash_used ← read x (is_hash_used message_hash)
    require (not hash_used) Code.signature_replay
    assertion_used ← read x (is_assertion_used (assertion_id x.crypto sig))
    require (not assertion_used) Code.signature_replay
    update x (mark_hash message_hash sig.pubkey)
    update x (mark_assertion (assertion_id x.crypto sig))

  -- The message hash and the signature, or `none` for an admin's own call.
  unfoldable pub is_authorized : Option (Bytes × SigAuth) → Call x (Unit {0})
  is_authorized none = is_admin_calling x.env.tx_sender
  is_authorized (some (message_hash, sig)) = consume_signature message_hash sig
