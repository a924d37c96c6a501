-- ===== src/Safe/External.antt =====
-- What juice-safe-v7.clar calls outside itself, the state of those contracts (`World`) and the
-- chain: the wallet's own variables beside the world.
use pillar_wallets_xyz.Base.{ℕ, String, Bool, Option, Bytes, ◌≡◌}
use pillar_wallets_xyz.Clarity.Outcome.{Outcome, ok, err, abort}
use pillar_wallets_xyz.Clarity.Contract.{Contract, gets, modify, advance}
use pillar_wallets_xyz.Webauthn.Crypto.{Crypto}
use pillar_wallets_xyz.Safe.State.{Safe}
use pillar_wallets_xyz.Safe.Hashes.{BtcRecipient}

-- The calls of fakfun-wallet-core-v2, which logs what the wallet does.
pub data CoreCall : Type 0 where
  log_stx_transfer : ℕ → String → Option Bytes → CoreCall
  log_sip010_transfer : String → ℕ → String → Option Bytes → CoreCall
  log_sip009_transfer : ℕ → String → String → CoreCall
  log_token_lock_toggled : Bool → CoreCall
  log_signal_config_change log_revoke_fast_pool : CoreCall
  log_wallet_config_set : ℕ → ℕ → ℕ → ℕ → CoreCall
  log_pending_operation :
      ℕ → String → ℕ → String → Option String → Option String → Option Bytes → ℕ → CoreCall
  log_operation_vetoed : ℕ → CoreCall
  log_propose_transfer_wallet log_wallet_transferred log_propose_recovery log_confirm_recovery
        log_admin_added :
      String → CoreCall
  log_recover_inactive_wallet : String → String → CoreCall
  log_stake_stx : ℕ → CoreCall
  register_wallet : String → CoreCall
  log_wallet_initialized : Bytes → CoreCall

-- The calls of pox-5: `stake signer amount cycles start`, `stake-update old new cycles amount`
-- and `unstake signer`.
pub data PoxCall : Type 0 where
  stake : String → ℕ → ℕ → ℕ → PoxCall
  stake_update : String → String → ℕ → ℕ → PoxCall
  unstake : String → PoxCall

-- What an sBTC withdrawal keeps in its payload.
pub record Withdrawal : Type 0 where
  pub recipient : BtcRecipient
  pub max_fee : ℕ

-- The calls of contracts that the caller names: `pay-gas` of a gas station, with the allowance, and
-- `transfer` of a token with the allowance, the token, its asset name, the amount and the recipient
-- (and a memo), or of an NFT with its number.
pub data ChosenCall : Type 0 where
  pay_gas : ℕ → String → ChosenCall
  send_sip010 : ℕ → String → String → ℕ → String → Option Bytes → ChosenCall
  send_sip009 : ℕ → String → String → String → ChosenCall

-- The wallet's own variables beside the state of the other contracts.
pub record Account (W : Type 0) : Type 0 where
  pub safe : Safe
  pub world : W

-- Each transfer of the wallet's own assets runs in `as-contract?` with an allowance, its first
-- number. A contract that the caller names may call the wallet back while it runs, since Clarity
-- refuses only a function that is already on the call stack: `chosen` acts on the whole account.
-- The other contracts are fixed in the source, and act on their own state.
pub record External : Type 1 where
  pub World : Type 0
  -- `get-balance` of the wallet; `none` is an error, on which the wallet panics.
  pub sbtc_balance : World → Option ℕ
  pub chosen : ChosenCall → Account World → Outcome (Account World)
  pub core : CoreCall → World → Outcome World
  pub send_stx : ℕ → ℕ → String → Option Bytes → World → Outcome World
  -- `transfer` of the sBTC token: the allowance, the amount, the recipient and the memo.
  pub send_sbtc : ℕ → ℕ → String → Option Bytes → World → Outcome World
  pub initiate_withdrawal : ℕ → ℕ → BtcRecipient → ℕ → World → Outcome World
  -- `none` is `(with-pox)`.
  pub pox : Option ℕ → PoxCall → World → Outcome World
  pub locked_ustx : World → ℕ
  -- The supply of the wallet's own `ect` token.
  pub mint_ect : ℕ → String → World → Outcome World
  pub burn_ect : ℕ → String → World → Outcome World
  -- `(from-consensus-buff? { recipient: ..., max-fee: uint } raw)`
  pub withdrawal_of_buff : Bytes → Option Withdrawal

-- No contract that the caller names changes the wallet by calling it back.
pub record LeavesSafe (ext : External) : Type 0 where
  pub same :
      (call : ChosenCall) (a b : Account ext.World) → ext.chosen call a ≡ ok b → b.safe ≡ a.safe

pub record Env : Type 0 where
  pub tx_sender : String
  pub burn_block_height : ℕ
  pub chain_id : ℕ
  pub current_contract : String

abbrev pub Chain : External → Type 0
Chain ext = Account ext.World

-- What a call runs in.
pub record Setting : Type 1 where
  pub crypto : Crypto
  pub ext : External
  pub env : Env

abbrev pub Call : Setting → Type 0 → Type 0
Call x A = Contract (Chain x.ext) A

module _ (x : Setting) where
  unfoldable pub read : {A : Type 0} → (Safe → A) → Call x A
  unfolding gets
  read f = gets (λ ch. f ch.safe)

  unfoldable pub read_world : {A : Type 0} → (x.ext.World → A) → Call x A
  unfolding gets
  read_world f = gets (λ ch. f ch.world)

  unfoldable pub update : (Safe → Safe) → Call x (Unit {0})
  unfolding modify
  update f = modify (λ ch. record ch { safe = f ch.safe })

  unfoldable pub in_world : Chain x.ext → Outcome x.ext.World → Outcome (Chain x.ext)
  in_world ch (ok w) = ok (record ch { world = w })
  in_world ch (err e) = err e
  in_world ch abort = abort

  unfoldable pub outside : (x.ext.World → Outcome x.ext.World) → Call x (Unit {0})
  unfolding advance in_world
  outside f = advance (λ ch. in_world ch (f ch.world))

  -- A call of a contract that the caller names.
  unfoldable pub visit : ChosenCall → Call x (Unit {0})
  unfolding advance
  visit call = advance (x.ext.chosen call)

  pub read-ok :
      {A : Type 0} (f : Safe → A) (ch : Chain x.ext) {r : A × Chain x.ext}
      → read f ch ≡ ok r
      → r ≡ (f ch.safe, ch)
  unfolding read
  read-ok f ch e = cc

  pub update-ok :
      (f : Safe → Safe) (ch : Chain x.ext) {r : Unit {0} × Chain x.ext}
      → update f ch ≡ ok r
      → r ≡ (tt, record ch { safe = f ch.safe })
  unfolding update
  update-ok f ch e = cc

  pub outside-ok :
      (f : x.ext.World → Outcome x.ext.World) (ch : Chain x.ext) {r : Unit {0} × Chain x.ext}
      → outside f ch ≡ ok r
      → r.1.safe ≡ ch.safe
  unfolding outside
  outside-ok f ch {r} e = split (f ch.world) e
    where
      split :
          (o : Outcome x.ext.World)
          → advance (λ (_ : Chain x.ext). in_world ch o) ch ≡ ok r
          → r.1.safe ≡ ch.safe
      split (ok w) e' = cc
      split (err n) e' = absurd (cc)
      split abort e' = absurd (cc)
