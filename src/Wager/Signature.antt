-- ===== src/Wager/Signature.antt =====
-- `verify-signature` and `consume-signature` of game-wager-v2.clar.
use pillar_wallets_xyz.Base.{ℕ, Bool, true, ◌||◌, not, Bytes, bytes_beq, insert, bytes_eq}
use pillar_wallets_xyz.Clarity.Outcome.{Outcome, ok, ◌>>=◌, ◌>>◌, asserts, unwrap}
use pillar_wallets_xyz.Webauthn.Crypto.{Crypto}
use pillar_wallets_xyz.Webauthn.Verifier.{
  get_rp_id_hash, is_user_verified, verify_webauthn_signature,
}
use pillar_wallets_xyz.Wager.State.{State, is_signature_used}
use pillar_wallets_xyz.Wager.State.Code

-- `sig-auth` as the entry points take it; `create-game` takes it without the key.
pub record SigAuth : Type 0 where
  pub auth_id : ℕ
  pub signature : Bytes
  pub authenticator_data : Bytes
  pub client_data_prefix : Bytes
  pub client_data_suffix : Bytes

module _ (c : Crypto) where
  unfoldable pub verify_signature : Bytes → Bytes → SigAuth → Outcome Bool
  verify_signature message_hash pubkey sig = do
    auth_rp_id ← unwrap (get_rp_id_hash sig.authenticator_data) Code.invalid_signature
    asserts
        (bytes_beq auth_rp_id Code.rp_id_hash_fakfun_com
          || bytes_beq auth_rp_id Code.rp_id_hash_fak_fun)
        Code.invalid_signature
    asserts (is_user_verified sig.authenticator_data) Code.invalid_signature
    verified ←
        verify_webauthn_signature c pubkey message_hash sig.authenticator_data
          sig.client_data_prefix sig.client_data_suffix sig.signature
    asserts verified Code.invalid_signature
    ok true

  unfoldable pub consume_signature : Bytes → Bytes → SigAuth → State → Outcome State
  unfolding verify_signature
  consume_signature message_hash pubkey sig s = do
    verified ← verify_signature message_hash pubkey sig
    asserts (not (is_signature_used message_hash s)) Code.signature_replay
    ok (record s { used_signatures = insert message_hash pubkey s.used_signatures })
