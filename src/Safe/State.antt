-- ===== src/Safe/State.antt =====
-- The data variables, maps and constants of juice-safe-v7.clar.
use pillar_wallets_xyz.Base.{
  ℕ, String, Bool, true, false, Option, none, some, List, [], ◌∷◌, Bytes, lookup, nat_eq, string_eq,
  bytes_eq,
}
-- The error codes and the limits of the contract.
pub mod Code

-- `wallet-config`
pub record Config : Type 0 where
  pub stx_threshold : ℕ
  pub sbtc_threshold : ℕ
  pub cooldown_period : ℕ
  pub config_signaled_at : Option ℕ

-- `pending-config`
pub record PendingConfig : Type 0 where
  pub stx_threshold : ℕ
  pub sbtc_threshold : ℕ
  pub cooldown_period : ℕ

-- `spent-this-period`
pub record Spent : Type 0 where
  pub stx : ℕ
  pub sbtc : ℕ
  pub gas : ℕ
  pub period_start : ℕ

-- `pending-max-gas`
pub record PendingGas : Type 0 where
  pub amount : ℕ
  pub proposed_at : ℕ

-- An entry of `pending-operations`
pub record Operation : Type 0 where
  pub op_type : String
  pub amount : ℕ
  pub recipient : String
  pub token : Option String
  pub extension : Option String
  pub payload : Option Bytes
  pub execute_after : ℕ
  pub executed : Bool
  pub vetoed : Bool
  pub passkey_created : Bool

pub record Safe : Type 0 where
  pub last_activity_block : ℕ
  pub recovery_address : String
  pub pubkey_initialized : Bool
  pub owner : String
  pub pending_recovery : String
  pub pending_transfer : String
  pub used_pubkey_authorizations : List (Bytes × Bytes)
  pub used_assertions : List (Bytes × Bool)
  pub wallet_config : Config
  pub max_gas_amount : ℕ
  pub token_lock_enabled : Bool
  pub spent_this_period : Spent
  pub pending_operations : List (ℕ × Operation)
  pub operation_nonce : ℕ
  pub pending_max_gas : PendingGas
  pub pending_config : PendingConfig
  pub admins : List (String × Bool)
  pub pubkey_to_admin : List (Bytes × String)

-- The placeholder for "nobody".
abbrev pub nobody : String
nobody = "SP000000000000000000002Q6VF78"

abbrev pub no_config : PendingConfig
no_config = record { stx_threshold = 0; sbtc_threshold = 0; cooldown_period = 0 }

abbrev pub no_gas : PendingGas
no_gas = record { amount = 0; proposed_at = 0 }

-- The values at deployment, in the Bitcoin block `height`.
unfoldable pub initial : ℕ → Safe
initial height = record {
  last_activity_block = height;
  recovery_address = nobody;
  pubkey_initialized = false;
  owner = nobody;
  pending_recovery = nobody;
  pending_transfer = nobody;
  used_pubkey_authorizations = [];
  used_assertions = [];
  wallet_config = record {
    stx_threshold = 100000000;
    sbtc_threshold = 100000;
    cooldown_period = 144;
    config_signaled_at = none;
  };
  max_gas_amount = 1000;
  token_lock_enabled = false;
  spent_this_period = record { stx = 0; sbtc = 0; gas = 0; period_start = height };
  pending_operations = [];
  operation_nonce = 0;
  pending_max_gas = no_gas;
  pending_config = no_config;
  admins = (nobody, true) ∷ [];
  pubkey_to_admin = [];
}

-- `get-pending-operation`
unfoldable pub get_pending_operation : ℕ → Safe → Option Operation
get_pending_operation op_id s = lookup op_id s.pending_operations

-- `(is-some (map-get? admins caller))`
unfoldable pub is_admin : String → Safe → Bool
is_admin caller s = elim (lookup caller s.admins) [ none ↦ false | some _ ↦ true ]
