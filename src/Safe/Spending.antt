-- ===== src/Safe/Spending.antt =====
-- The spending limits of juice-safe-v7.clar and the gas that the wallet pays.
use pillar_wallets_xyz.Base.{
  ℕ, ◌-◌, Bool, true, false, not, Option, none, some, String, ltb, if◌then◌else◌,
}
use pillar_wallets_xyz.Clarity.Outcome.{ok, unwrap_panic, add_uint, mul_uint}
use pillar_wallets_xyz.Clarity.Contract.{lift, require, ◌>>=◌, ◌>>◌}
use pillar_wallets_xyz.Safe.State.{Safe, Spent}
use pillar_wallets_xyz.Safe.State.Code
use pillar_wallets_xyz.Safe.External.{Setting, Call, read, read_world, update, visit, pay_gas}

abbrev pub set_spent : Spent → Safe → Safe
set_spent spent s = record s { spent_this_period = spent }

module _ (x : Setting) where
  unfoldable pub get_current_spent : Call x Spent
  get_current_spent = do
    spent ← read x (λ s. s.spent_this_period)
    config ← read x (λ s. s.wallet_config)
    ends ← lift (add_uint spent.period_start config.cooldown_period)
    lift (
        ok (
          if ltb ends x.env.burn_block_height
          then record { stx = 0; sbtc = 0; gas = 0; period_start = x.env.burn_block_height }
          else spent))

  unfoldable pub add_spent_stx : ℕ → Call x (Unit {0})
  add_spent_stx amount = do
    current ← get_current_spent
    total ← lift (add_uint current.stx amount)
    update x (set_spent (record current { stx = total }))

  unfoldable pub add_spent_sbtc : ℕ → Call x (Unit {0})
  add_spent_sbtc amount = do
    current ← get_current_spent
    total ← lift (add_uint current.sbtc amount)
    update x (set_spent (record current { sbtc = total }))

  unfoldable pub add_spent_gas : ℕ → Call x (Unit {0})
  add_spent_gas amount = do
    current ← get_current_spent
    total ← lift (add_uint current.gas amount)
    update x (set_spent (record current { gas = total }))

  unfoldable pub would_exceed_stx_threshold : ℕ → Call x Bool
  would_exceed_stx_threshold amount = do
    config ← read x (λ s. s.wallet_config)
    spent ← get_current_spent
    total ← lift (add_uint spent.stx amount)
    lift (ok (ltb config.stx_threshold total))

  unfoldable pub would_exceed_sbtc_threshold : ℕ → Call x Bool
  would_exceed_sbtc_threshold amount = do
    config ← read x (λ s. s.wallet_config)
    spent ← get_current_spent
    total ← lift (add_uint spent.sbtc amount)
    lift (ok (ltb config.sbtc_threshold total))

  unfoldable pub max_gas_per_period : Call x ℕ
  max_gas_per_period = do
    amount ← read x (λ s. s.max_gas_amount)
    lift (mul_uint amount Code.gas_calls_per_period)

  -- The test of the gas limit; `and` reads it only where it is enforced.
  unfoldable pub gas_exceeded : Bool → ℕ → Call x Bool
  gas_exceeded false fee = lift (ok false)
  gas_exceeded true fee = do
    current ← get_current_spent
    total ← lift (add_uint current.gas fee)
    limit ← max_gas_per_period
    lift (ok (ltb limit total))

  unfoldable pub pay_gas_accounted : String → Bool → Call x (Unit {0})
  pay_gas_accounted station enforce = do
    found ← read_world x x.ext.sbtc_balance
    before ← lift (unwrap_panic found)
    allowance ← read x (λ s. s.max_gas_amount)
    visit x (pay_gas allowance station)
    left ← read_world x x.ext.sbtc_balance
    after ← lift (unwrap_panic left)
    let fee = if ltb after before then before - after else 0
    exceeded ← gas_exceeded enforce fee
    require (not exceeded) Code.threshold_exceeded
    add_spent_gas fee

  -- `(match gas g (try! (pay-gas-accounted g enforce)) true)`
  unfoldable pub pay_gas_if : Option String → Bool → Call x (Unit {0})
  pay_gas_if none enforce = lift (ok tt)
  pay_gas_if (some station) enforce = pay_gas_accounted station enforce
