-- ===== src/Safe/Limits.antt =====
-- What a transfer of juice-safe-v7.clar may spend at once.
use mathlib.Core.Path.{subst}
use pillar_wallets_xyz.Base.{
  arith, ℕ, ◌+◌, ◌≤◌, ◌<◌, ap₂, true, ◌⊎◌, inl, inr, String, Bool, false, Option, none, some, Bytes,
  ◌≡◌, refl, sym, ap, ◌∙◌, ltb, lookup, nat_eq, ==_refl, if◌then◌else◌, Bool-cases,
}
use pillar_wallets_xyz.Base.Keys.{lookup-insert}
use pillar_wallets_xyz.Clarity.Outcome.{Outcome, ok, add_uint}
use pillar_wallets_xyz.Clarity.Contract.{then-ok, lift, panicking, panicking-ok}
use pillar_wallets_xyz.Wager.Effects.{add_uint-ok}
use pillar_wallets_xyz.Safe.State.{Safe, Operation, Config, Spent, get_pending_operation}
use pillar_wallets_xyz.Safe.External.{
  Setting, Chain, read, read-ok, update-ok, outside, outside-ok, log_stx_transfer, LeavesSafe,
}
use pillar_wallets_xyz.Safe.Signature.{SigAuth}
use pillar_wallets_xyz.Safe.Spending.{
  set_spent, add_spent_gas, get_current_spent, add_spent_stx, would_exceed_stx_threshold,
}
use pillar_wallets_xyz.Safe.Operations.{
  create_pending_operation, update_activity, unlocked_passkey_or_admin,
}
use pillar_wallets_xyz.Safe.Transfers.{queue, is_some, stx_transfer, stx_transfer_now}
use pillar_wallets_xyz.Clarity.Contract.Keeps.{Change, Keeps}
use pillar_wallets_xyz.Safe.Frame.{
  on_chain, AllowsCalls, LeavesSafe-visits, update_activity-Keeps, unlocked_passkey_or_admin-Keeps,
}
use pillar_wallets_xyz.Safe.Queue.Orders.{lift-ok, create_pending_operation-ok}

-- A payment that waits under the newest number.
pub record IsQueued (op_type : String) (n : ℕ) (to : String) (s : Safe) : Type 0 where
  pub id : ℕ
  pub op : Operation
  pub found : get_pending_operation id s ≡ some op
  pub newest : s.operation_nonce ≡ id + 1
  pub typed : op.op_type ≡ op_type
  pub amount : op.amount ≡ n
  pub recipient : op.recipient ≡ to
  pub waits : (op.executed ≡ false) × (op.vetoed ≡ false)

-- What the limits count: nothing once the period is over.
abbrev pub current_spent : ℕ → Safe → Spent
current_spent height s =
    if ltb (s.spent_this_period.period_start + s.wallet_config.cooldown_period) height
    then record { stx = 0; sbtc = 0; gas = 0; period_start = height }
    else s.spent_this_period

-- The payment fits the limit, and the counter of the period goes up by it.
pub record IsWithin (height n : ℕ) (s s' : Safe) : Type 0 where
  pub fits : (current_spent height s).stx + n ≤ s.wallet_config.stx_threshold
  pub counted : s'.spent_this_period.stx ≡ (current_spent height s).stx + n

-- What the limits read is as before.
spending_fixed : ℕ → Change Safe
spending_fixed height = record {
  rel = λ s s'.
      ((current_spent height s').stx ≡ (current_spent height s).stx)
      × (s'.wallet_config ≡ s.wallet_config);
  none_made = λ s. (refl, refl);
  both = λ first second. (second.0 ∙ first.0, second.1 ∙ first.1);
}

-- Writing what is counted back, with other gas, changes nothing that counts.
current_spent-gas :
    (height gas : ℕ) (s : Safe)
    → (current_spent height (set_spent (record (current_spent height s) { gas = gas }) s)).stx
      ≡ (current_spent height s).stx
current_spent-gas height gas s =
    elim (Bool-cases
      (ltb (s.spent_this_period.period_start + s.wallet_config.cooldown_period) height)) [
        | inl over ↦ rw over (ground arith)
        | inr running ↦ rw running (rw running refl)
      ]

past : (a b : ℕ) → ltb a b ≡ true → a < b
past a b h = ground arith

not_past : (a b : ℕ) → ltb a b ≡ false → b ≤ a
not_past a b h = ground arith

ok-same {ℓ} : {A : Type ℓ} {o : Outcome A} {a b : A} → o ≡ ok a → o ≡ ok b → a ≡ b
ok-same first second = cc

module _ (x : Setting) where
  get_current_spent-ok :
      (ch : Chain x.ext) {r : Spent × Chain x.ext}
      → get_current_spent x ch ≡ ok r
      → (r.1 ≡ ch) × (r.0 ≡ current_spent x.env.burn_block_height ch.safe)
  unfolding get_current_spent
  get_current_spent-ok ch {r} e =
      let (q1, e1, rest1) = then-ok (read x (λ s. s.spent_this_period)) _ ch e in
      let (q2, e2, rest2) = then-ok (read x (λ s. s.wallet_config)) _ q1.1 rest1 in
      let (q3, e3, rest3) =
        then-ok (lift (add_uint q1.0.period_start q2.0.cooldown_period)) _ q2.1 rest2 in
      let seen = read-ok x (λ s. s.spent_this_period) ch e1 in
      let config = read-ok x (λ s. s.wallet_config) q1.1 e2 in
      let (total, same3) = lift-ok (add_uint q1.0.period_start q2.0.cooldown_period) q2.1 e3 in
      let (answer, same4) = lift-ok (ok (choose q3.0 q1.0)) q3.1 rest3 in
      let spent : q1.0 ≡ ch.safe.spent_this_period = ap (λ q. q.0) seen in
      let limits : q2.0 ≡ ch.safe.wallet_config =
        ap (λ q. q.0) config ∙ ap (λ q. q.1.safe.wallet_config) seen in
      (
        same4 ∙ same3 ∙ ap (λ q. q.1) config ∙ ap (λ q. q.1) seen,
        ok-same answer refl
            ∙ ap (λ t. choose t q1.0) (add_uint-ok q1.0.period_start q2.0.cooldown_period total)
            ∙ ap₂ (λ (u : Spent) (c : Config). choose (u.period_start + c.cooldown_period) u) spent
                limits,
      )
    where
      choose : ℕ → Spent → Spent
      choose ends u =
          if ltb ends x.env.burn_block_height
          then record { stx = 0; sbtc = 0; gas = 0; period_start = x.env.burn_block_height }
          else u

  would_exceed-ok :
      (n : ℕ) (ch : Chain x.ext) {r : Bool × Chain x.ext}
      → would_exceed_stx_threshold x n ch ≡ ok r
      → (r.1 ≡ ch)
        × (r.0
            ≡ ltb ch.safe.wallet_config.stx_threshold
                ((current_spent x.env.burn_block_height ch.safe).stx + n))
  unfolding would_exceed_stx_threshold
  would_exceed-ok n ch {r} e =
      let height = x.env.burn_block_height in
      let (q1, e1, rest1) = then-ok (read x (λ s. s.wallet_config)) _ ch e in
      let (q2, e2, rest2) = then-ok (get_current_spent x) _ q1.1 rest1 in
      let (q3, e3, rest3) = then-ok (lift (add_uint q2.0.stx n)) _ q2.1 rest2 in
      let config = read-ok x (λ s. s.wallet_config) ch e1 in
      let (same2, spent) = get_current_spent-ok q1.1 e2 in
      let (total, same3) = lift-ok (add_uint q2.0.stx n) q2.1 e3 in
      let sum : q3.0 ≡ q2.0.stx + n = add_uint-ok q2.0.stx n total in
      let (answer, same4) = lift-ok (ok (ltb q1.0.stx_threshold q3.0)) q3.1 rest3 in
      (
        same4 ∙ same3 ∙ same2 ∙ ap (λ q. q.1) config,
        ok-same answer refl
            ∙ ap (λ t. ltb q1.0.stx_threshold t) sum
            ∙ ap (λ (u : Spent). ltb q1.0.stx_threshold (u.stx + n)) spent
            ∙ ap (λ q. ltb q.0.stx_threshold ((current_spent height q.1.safe).stx + n)) config,
      )

  add_spent_stx-ok :
      (n : ℕ) (ch : Chain x.ext) {r : Unit {0} × Chain x.ext}
      → add_spent_stx x n ch ≡ ok r
      → r.1.safe.spent_this_period.stx ≡ (current_spent x.env.burn_block_height ch.safe).stx + n
  unfolding add_spent_stx
  add_spent_stx-ok n ch {r} e =
      let (q1, e1, rest1) = then-ok (get_current_spent x) _ ch e in
      let (q2, e2, rest2) = then-ok (lift (add_uint q1.0.stx n)) _ q1.1 rest1 in
      let (total, same2) = lift-ok (add_uint q1.0.stx n) q1.1 e2 in
      let sum : q2.0 ≡ q1.0.stx + n = add_uint-ok q1.0.stx n total in
      let written = update-ok x (set_spent (record q1.0 { stx = q2.0 })) q2.1 rest2 in
      ap (λ q. q.1.safe.spent_this_period.stx) written
      ∙ sum
      ∙ ap (λ (u : Spent). u.stx + n) (get_current_spent-ok ch e1).1

  gas_spent :
      (fee : ℕ) → Keeps (on_chain x (spending_fixed x.env.burn_block_height)) (add_spent_gas x fee)
  unfolding add_spent_gas on_chain spending_fixed
  gas_spent fee = record {
    at = λ ch {r} e.
        let height = x.env.burn_block_height in
        let (q1, e1, rest1) = then-ok (get_current_spent x) _ ch e in
        let (q2, e2, rest2) = then-ok (lift (add_uint q1.0.gas fee)) _ q1.1 rest1 in
        let (same1, spent) = get_current_spent-ok ch e1 in
        let (total, same2) = lift-ok (add_uint q1.0.gas fee) q1.1 e2 in
        let written = update-ok x (set_spent (record q1.0 { gas = q2.0 })) q2.1 rest2 in
        let last : r.1.safe
            ≡ set_spent (record (current_spent height ch.safe) { gas = q2.0 }) ch.safe =
          ap (λ q. q.1.safe) written
          ∙ ap₂ (λ (u : Spent) (c : Chain x.ext). set_spent (record u { gas = q2.0 }) c.safe) spent
              (same2 ∙ same1) in
        (
          ap (λ s. (current_spent height s).stx) last ∙ current_spent-gas height q2.0 ch.safe,
          ap (λ s. s.wallet_config) last,
        );
  }

  spending-AllowsCalls : LeavesSafe x.ext → AllowsCalls x (spending_fixed x.env.burn_block_height)
  unfolding spending_fixed
  spending-AllowsCalls quiet = record {
    marks_hash = λ hash pubkey s. (refl, refl);
    marks_assertion = λ id s. (refl, refl);
    active = λ height s. (refl, refl);
    spends_gas = gas_spent;
    visits = LeavesSafe-visits x (spending_fixed x.env.burn_block_height) quiet;
  }

  stx_transfer_now-counted :
      (n : ℕ) (to : String) (memo : Option Bytes) (ch : Chain x.ext) {r : Unit {0} × Chain x.ext}
      → stx_transfer_now x n to memo ch ≡ ok r
      → r.1.safe.spent_this_period.stx ≡ (current_spent x.env.burn_block_height ch.safe).stx + n
  unfolding stx_transfer_now
  stx_transfer_now-counted n to memo ch {r} e =
      let (q1, e1, rest1) = then-ok (add_spent_stx x n) _ ch e in
      let (q2, e2, rest2) =
        then-ok (outside x (x.ext.core (log_stx_transfer n to memo))) _ q1.1 rest1 in
      ap (λ s. s.spent_this_period.stx) (outside-ok x _ q2.1 rest2 ∙ outside-ok x _ q1.1 e2)
      ∙ add_spent_stx-ok n ch e1

  queue-IsQueued :
      (op_type : String) (n : ℕ) (to : String) (token : Option String) (payload : Option Bytes)
      (by_key : Bool) (ch : Chain x.ext) {r : Unit {0} × Chain x.ext}
      → queue x op_type n to token payload by_key ch ≡ ok r
      → IsQueued op_type n to r.1.safe
  unfolding queue get_pending_operation
  queue-IsQueued op_type n to token payload by_key ch {r} e =
      let (q1, e1, rest1) =
        then-ok (panicking (create_pending_operation x op_type n to token none payload by_key)) _ ch
          e in
      let stored =
        create_pending_operation-ok x op_type n to token none payload by_key ch
          (panicking-ok _ ch e1) in
      let op : Operation = record {
        op_type = op_type;
        amount = n;
        recipient = to;
        token = token;
        extension = none;
        payload = payload;
        execute_after = x.env.burn_block_height + ch.safe.wallet_config.cooldown_period;
        executed = false;
        vetoed = false;
        passkey_created = by_key;
      } in
      let last = ap (λ c. c.safe) (lift-ok (ok tt) q1.1 rest1).1 ∙ stored in
      subst (IsQueued op_type n to) (sym last) (record {
        id = ch.safe.operation_nonce;
        op = op;
        found =
            lookup-insert ch.safe.operation_nonce ch.safe.operation_nonce op
              ch.safe.pending_operations
            ∙ ap
                (λ b.
                  if b then some op else lookup ch.safe.operation_nonce ch.safe.pending_operations)
                (==_refl ch.safe.operation_nonce);
        newest = refl;
        typed = refl;
        amount = refl;
        recipient = refl;
        waits = (refl, refl);
      })

  -- If no contract that the caller names changes the wallet by calling it back, an STX transfer
  -- that ends in ok is one of two. Either its amount and what the period has spent, which is nothing
  -- once the period is over, are together within the limit of the wallet, and the counter ends at
  -- their sum; or they are together past the limit, and the transfer is stored under the newest
  -- number as an operation of its amount and recipient that is neither executed nor vetoed.
  pub stx_transfer-limit :
      (n : ℕ) (to : String) (memo : Option Bytes) (sig : Option SigAuth) (gas : Option String)
      (ch : Chain x.ext) (r : Unit {0} × Chain x.ext)
      → LeavesSafe x.ext
      → stx_transfer x n to memo sig gas ch ≡ ok r
      → IsWithin x.env.burn_block_height n ch.safe r.1.safe
        ⊎ ((ch.safe.wallet_config.stx_threshold
              < (current_spent x.env.burn_block_height ch.safe).stx + n)
            × IsQueued "stx-transfer" n to r.1.safe)
  unfolding stx_transfer on_chain spending_fixed
  stx_transfer-limit n to memo sig gas ch r quiet e =
      let height = x.env.burn_block_height in
      let R = spending_fixed height in
      let calls = spending-AllowsCalls quiet in
      let (q1, e1, rest1) = then-ok (update_activity x) _ ch e in
      let (q2, e2, rest2) = then-ok (unlocked_passkey_or_admin x _ sig gas) _ q1.1 rest1 in
      let (q3, e3, rest3) = then-ok (would_exceed_stx_threshold x n) _ q2.1 rest2 in
      let (same, answer) = would_exceed-ok n q2.1 e3 in
      let kept : R.rel ch.safe q2.1.safe =
        R.both {s = ch.safe} {t = q1.1.safe} {u = q2.1.safe}
          ((update_activity-Keeps x R calls).at ch e1)
          ((unlocked_passkey_or_admin-Keeps x R calls _ sig gas).at q1.1 e2) in
      let sum : (current_spent height q3.1.safe).stx + n ≡ (current_spent height ch.safe).stx + n =
        ap (λ (c : Chain x.ext). (current_spent height c.safe).stx + n) same
        ∙ ap (λ k. k + n) kept.0 in
      let test : q3.0
          ≡ ltb ch.safe.wallet_config.stx_threshold ((current_spent height ch.safe).stx + n) =
        answer ∙ ap₂ (λ (c : Config) k. ltb c.stx_threshold (k + n)) kept.1 kept.0 in
      let chosen : Bool → Type 0 = λ b.
        (if b
            then queue x "stx-transfer" n to none none (is_some sig)
            else stx_transfer_now x n to memo)
          q3.1
        ≡ ok r in
      elim (Bool-cases q3.0) [
        | inl over ↦ inr (
          past _ _ (sym test ∙ over),
          queue-IsQueued "stx-transfer" n to none none (is_some sig) q3.1 (subst chosen over rest3),
        )
        | inr within ↦ inl (record {
          fits = not_past _ _ (sym test ∙ within);
          counted = stx_transfer_now-counted n to memo q3.1 (subst chosen within rest3) ∙ sum;
        })
      ]
