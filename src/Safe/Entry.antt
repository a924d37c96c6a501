-- ===== src/Safe/Entry.antt =====
-- The public functions of juice-safe-v7.clar as values, and transactions: a call that fails leaves
-- the chain as it was.
use pillar_wallets_xyz.Base.{ℕ, String, Bool, Option, List, [], ◌∷◌, Bytes}
use pillar_wallets_xyz.Clarity.Outcome.{Outcome, ok, err, abort}
use pillar_wallets_xyz.Webauthn.Crypto.{Crypto}
use pillar_wallets_xyz.Safe.Hashes.{BtcRecipient}
use pillar_wallets_xyz.Safe.External.{External, Env, Chain, Setting, Call}
use pillar_wallets_xyz.Safe.Signature.{SigAuth}
use pillar_wallets_xyz.Safe.Operations
use pillar_wallets_xyz.Safe.Transfers
use pillar_wallets_xyz.Safe.Execution
use pillar_wallets_xyz.Safe.Config
use pillar_wallets_xyz.Safe.Ownership
use pillar_wallets_xyz.Safe.Staking

pub data Entry : Type 0 where
  propose_max_gas_amount : ℕ → Entry
  confirm_max_gas_amount : SigAuth → Option String → Entry
  toggle_token_lock : Bool → Option SigAuth → Option String → Entry
  signal_config_change : ℕ → ℕ → ℕ → Entry
  set_wallet_config : SigAuth → Option String → Entry
  veto_operation : ℕ → Option SigAuth → Option String → Entry
  stx_transfer : ℕ → String → Option Bytes → Option SigAuth → Option String → Entry
  execute_pending_stx_transfer : ℕ → Option Bytes → Entry
  execute_pending_stx_transfer_now : ℕ → Option Bytes → SigAuth → Option String → Entry
  sip010_transfer :
      ℕ → String → Option Bytes → String → String → Option SigAuth → Option String → Entry
  execute_pending_sbtc_transfer : ℕ → Option Bytes → Entry
  execute_pending_sbtc_transfer_now : ℕ → Option Bytes → SigAuth → Option String → Entry
  sbtc_initiate_withdrawal : ℕ → BtcRecipient → ℕ → Option SigAuth → Option String → Entry
  execute_pending_sbtc_withdrawal : ℕ → Entry
  execute_pending_sbtc_withdrawal_now : ℕ → SigAuth → Option String → Entry
  sip009_transfer : ℕ → String → String → String → Option SigAuth → Option String → Entry
  propose_transfer_wallet : String → Entry
  confirm_transfer_wallet : SigAuth → Option String → Entry
  propose_recovery : String → SigAuth → Option String → Entry
  confirm_recovery : Entry
  recover_inactive_wallet : String → Entry
  stake_stx_juice : ℕ → Option SigAuth → Option String → Entry
  update_stake_stx_juice : ℕ → ℕ → Option SigAuth → Option String → Entry
  unstake : Option SigAuth → Option String → Entry
  onboard : Bytes → String → String → ℕ → ℕ → ℕ → Entry

unfoldable pub exec : (x : Setting) → Entry → Call x (Unit {0})
exec x (propose_max_gas_amount amount) = Config.propose_max_gas_amount x amount
exec x (confirm_max_gas_amount sig gas) = Config.confirm_max_gas_amount x sig gas
exec x (toggle_token_lock enabled sig gas) = Config.toggle_token_lock x enabled sig gas
exec x (signal_config_change stx sbtc cooldown) = Config.signal_config_change x stx sbtc cooldown
exec x (set_wallet_config sig gas) = Config.set_wallet_config x sig gas
exec x (veto_operation id sig gas) = Operations.veto_operation x id sig gas
exec x (stx_transfer n to memo sig gas) = Transfers.stx_transfer x n to memo sig gas
exec x (execute_pending_stx_transfer id memo) = Execution.execute_pending_stx_transfer x id memo
exec x (execute_pending_stx_transfer_now id memo sig gas) =
    Execution.execute_pending_stx_transfer_now x id memo sig gas
exec x (sip010_transfer n to memo token name sig gas) =
    Transfers.sip010_transfer x n to memo token name sig gas
exec x (execute_pending_sbtc_transfer id memo) = Execution.execute_pending_sbtc_transfer x id memo
exec x (execute_pending_sbtc_transfer_now id memo sig gas) =
    Execution.execute_pending_sbtc_transfer_now x id memo sig gas
exec x (sbtc_initiate_withdrawal n to fee sig gas) =
    Transfers.sbtc_initiate_withdrawal x n to fee sig gas
exec x (execute_pending_sbtc_withdrawal id) = Execution.execute_pending_sbtc_withdrawal x id
exec x (execute_pending_sbtc_withdrawal_now id sig gas) =
    Execution.execute_pending_sbtc_withdrawal_now x id sig gas
exec x (sip009_transfer id to token name sig gas) =
    Transfers.sip009_transfer x id to token name sig gas
exec x (propose_transfer_wallet admin) = Ownership.propose_transfer_wallet x admin
exec x (confirm_transfer_wallet sig gas) = Ownership.confirm_transfer_wallet x sig gas
exec x (propose_recovery recovery sig gas) = Ownership.propose_recovery x recovery sig gas
exec x confirm_recovery = Ownership.confirm_recovery x
exec x (recover_inactive_wallet admin) = Ownership.recover_inactive_wallet x admin
exec x (stake_stx_juice n sig gas) = Staking.stake_stx_juice x n sig gas
exec x (update_stake_stx_juice n cycles sig gas) = Staking.update_stake_stx_juice x n cycles sig gas
exec x (unstake sig gas) = Staking.unstake x sig gas
exec x (onboard key owner recovery stx sbtc cooldown) =
    Ownership.onboard x key owner recovery stx sbtc cooldown

-- One transaction: who sends it and when, and what it calls.
pub record Tx : Type 0 where
  pub env : Env
  pub entry : Entry

module _ (c : Crypto) (ext : External) where
  abbrev pub setting : Env → Setting
  setting env = record { crypto = c; ext = ext; env = env }

  abbrev pub settle : Chain ext → Outcome (Unit {0} × Chain ext) → Chain ext
  settle ch (ok (_, ch')) = ch'
  settle ch (err e) = ch
  settle ch abort = ch

  -- The chain after any transactions, those that failed included.
  unfoldable pub run : List Tx → Chain ext → Chain ext
  run [] ch = ch
  run (tx ∷ txs) ch = run txs (settle ch (exec (setting tx.env) tx.entry ch))
