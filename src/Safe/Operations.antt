-- ===== src/Safe/Operations.antt =====
-- The pending operations of juice-safe-v7.clar: how they are created and vetoed, and how the
-- entry points decide who may act.
use pillar_wallets_xyz.Base.{
  ℕ, String, Bool, true, false, not, Option, none, some, Bytes, insert, nat_eq,
}
use pillar_wallets_xyz.Clarity.Outcome.{ok, unwrap, add_uint}
use pillar_wallets_xyz.Clarity.Contract.{lift, require, ◌>>=◌, ◌>>◌}
use pillar_wallets_xyz.Safe.State.{Safe, Operation, get_pending_operation}
use pillar_wallets_xyz.Safe.State.Code
use pillar_wallets_xyz.Safe.Hashes.{build_veto_operation_hash}
use pillar_wallets_xyz.Safe.External.{
  Setting, Call, read, update, outside, log_pending_operation, log_operation_vetoed,
}
use pillar_wallets_xyz.Safe.Signature.{SigAuth, is_authorized}
use pillar_wallets_xyz.Safe.Spending.{pay_gas_if}

abbrev pub set_operation : ℕ → Operation → Safe → Safe
set_operation op_id op s = record s { pending_operations = insert op_id op s.pending_operations }

abbrev pub set_nonce : ℕ → Safe → Safe
set_nonce n s = record s { operation_nonce = n }

module _ (x : Setting) where
  unfoldable pub update_activity : Call x (Unit {0})
  update_activity = update x (λ s. record s { last_activity_block = x.env.burn_block_height })

  -- A signature by the passkey, over the hash that a builder gives for its `auth-id`, and the gas.
  unfoldable pub by_passkey : (ℕ → Bytes) → SigAuth → Option String → Call x (Unit {0})
  by_passkey build sig gas = do
    is_authorized x (some (build sig.auth_id, sig))
    pay_gas_if x gas true

  -- `(match sig-auth details (begin (try! (is-authorized ...)) (match gas ...)) (try! (is-authorized none)))`
  unfoldable pub passkey_or_admin : (ℕ → Bytes) → Option SigAuth → Option String → Call x (Unit {0})
  passkey_or_admin build none gas = is_authorized x none
  passkey_or_admin build (some sig) gas = by_passkey build sig gas

  -- The same where the token lock shuts the passkey out, as for every move of an asset.
  unfoldable pub unlocked_passkey_or_admin :
      (ℕ → Bytes) → Option SigAuth → Option String → Call x (Unit {0})
  unlocked_passkey_or_admin build none gas = is_authorized x none
  unlocked_passkey_or_admin build (some sig) gas = do
    locked ← read x (λ s. s.token_lock_enabled)
    require (not locked) Code.token_locked
    by_passkey build sig gas

  unfoldable pub create_pending_operation :
      String → ℕ → String → Option String → Option String → Option Bytes → Bool → Call x ℕ
  create_pending_operation op_type amount recipient token extension payload passkey_created = do
    config ← read x (λ s. s.wallet_config)
    op_id ← read x (λ s. s.operation_nonce)
    after ← lift (add_uint x.env.burn_block_height config.cooldown_period)
    update x (
        set_operation op_id (record {
          op_type = op_type;
          amount = amount;
          recipient = recipient;
          token = token;
          extension = extension;
          payload = payload;
          execute_after = after;
          executed = false;
          vetoed = false;
          passkey_created = passkey_created;
        }))
    next ← lift (add_uint op_id 1)
    update x (set_nonce next)
    outside x (
        x.ext.core
          (log_pending_operation op_id op_type amount recipient token extension payload after))
    lift (ok op_id)

  unfoldable pub veto_operation : ℕ → Option SigAuth → Option String → Call x (Unit {0})
  veto_operation op_id sig_auth gas = do
    found ← read x (get_pending_operation op_id)
    op ← lift (unwrap found Code.invalid_operation)
    passkey_or_admin
        (build_veto_operation_hash x.crypto x.env.chain_id x.env.current_contract op_id) sig_auth
        gas
    require (not op.executed) Code.already_executed
    update x (set_operation op_id (record op { vetoed = true }))
    update_activity
    outside x (x.ext.core (log_operation_vetoed op_id))
