-- ===== src/Safe/Queue/Orders.antt =====
-- A transfer past its limit is one new item of the queue; one within it leaves the queue alone.
use mathlib.Core.Path.{subst}
use pillar_wallets_xyz.Base.{
  arith, ℕ, ◌+◌, String, Bool, false, Option, Bytes, ◌≡◌, refl, sym, ap, ap₂, ◌∙◌,
}
use pillar_wallets_xyz.Clarity.Outcome.{Outcome, ok, err, abort, add_uint}
use pillar_wallets_xyz.Clarity.Contract.{then-ok, lift, panicking, panicking-ok}
use pillar_wallets_xyz.Wager.Effects.{add_uint-ok}
use pillar_wallets_xyz.Safe.State.{Safe, Operation, get_pending_operation}
use pillar_wallets_xyz.Safe.Hashes.{BtcRecipient}
use pillar_wallets_xyz.Safe.External.{
  Setting, Chain, Call, read, update, read-ok, update-ok, outside, outside-ok,
  log_pending_operation, LeavesSafe,
}
use pillar_wallets_xyz.Safe.Signature.{SigAuth}
use pillar_wallets_xyz.Safe.Operations.{set_operation, set_nonce, create_pending_operation}
use pillar_wallets_xyz.Safe.Transfers.{
  queue, stx_transfer, stx_transfer_now, sip010_transfer, sip010_transfer_now, exceeds_if_sbtc,
  spend_if_sbtc, sbtc_initiate_withdrawal, withdraw_now,
}
use pillar_wallets_xyz.Safe.Frame.{frame_rules}
use pillar_wallets_xyz.Safe.Queue.{Queue, Step, orders, put, view, item_of}
use pillar_wallets_xyz.Safe.Queue.Inversion.{view-set_operation}
use pillar_wallets_xyz.Safe.Queue.Rules.{
  fixed-AllowsCalls, StepsIf, steps_rules, spends_stx, spends_sbtc,
}
use pillar_wallets_xyz.Safe.Queue.Payments.{Always}

pub lift-ok :
    {S A : Type 0} (o : Outcome A) (s : S) {r : A × S} → lift o s ≡ ok r → (o ≡ ok r.0) × (r.1 ≡ s)
unfolding lift
lift-ok (ok a) s h = (cc, cc)
lift-ok (err e) s h = absurd (cc)
lift-ok abort s h = absurd (cc)

-- The new operation and the new nonce, as the queue sees them.
view_ordered :
    (op : Operation) (s : Safe)
    → view (set_nonce (s.operation_nonce + 1) (set_operation s.operation_nonce op s))
      ≡ record (put (view s).next (item_of op) (view s)) { next = (view s).next + 1 }
unfolding view get_pending_operation
view_ordered op s =
    ap (λ (q : Queue). record q { next = s.operation_nonce + 1 })
      (view-set_operation s.operation_nonce op s)

module _ (x : Setting) where
  -- What `create-pending-operation` stores, and under which number.
  pub create_pending_operation-ok :
      (op_type : String) (n : ℕ) (to : String) (token extension : Option String)
      (payload : Option Bytes) (by_key : Bool) (ch : Chain x.ext) {r : ℕ × Chain x.ext}
      → create_pending_operation x op_type n to token extension payload by_key ch ≡ ok r
      → r.1.safe
        ≡ set_nonce (ch.safe.operation_nonce + 1) (
            set_operation ch.safe.operation_nonce
              (record {
                op_type = op_type;
                amount = n;
                recipient = to;
                token = token;
                extension = extension;
                payload = payload;
                execute_after = x.env.burn_block_height + ch.safe.wallet_config.cooldown_period;
                executed = false;
                vetoed = false;
                passkey_created = by_key;
              })
              ch.safe)
  unfolding create_pending_operation
  create_pending_operation-ok op_type n to token extension payload by_key ch {r} e =
      let (q1, e1, rest1) = then-ok (read x (λ s. s.wallet_config)) _ ch e in
      let (q2, e2, rest2) = then-ok (read x (λ s. s.operation_nonce)) _ q1.1 rest1 in
      let (q3, e3, rest3) =
        then-ok (lift (add_uint x.env.burn_block_height q1.0.cooldown_period)) _ q2.1 rest2 in
      let stored_op : ℕ → Operation = λ after. record {
        op_type = op_type;
        amount = n;
        recipient = to;
        token = token;
        extension = extension;
        payload = payload;
        execute_after = after;
        executed = false;
        vetoed = false;
        passkey_created = by_key;
      } in
      let (q4, e4, rest4) = then-ok (update x (set_operation q2.0 (stored_op q3.0))) _ q3.1 rest3 in
      let (q5, e5, rest5) = then-ok (lift (add_uint q2.0 1)) _ q4.1 rest4 in
      let (q6, e6, rest6) = then-ok (update x (set_nonce q5.0)) _ q5.1 rest5 in
      let (q7, e7, rest7) =
        then-ok
          (outside x
            (x.ext.core (log_pending_operation q2.0 op_type n to token extension payload q3.0)))
          _ q6.1 rest6 in
      let read1 = read-ok x (λ s. s.wallet_config) ch e1 in
      let read2 = read-ok x (λ s. s.operation_nonce) q1.1 e2 in
      let (sum, same3) = lift-ok (add_uint x.env.burn_block_height q1.0.cooldown_period) q2.1 e3 in
      let later : q3.0 ≡ x.env.burn_block_height + ch.safe.wallet_config.cooldown_period =
        add_uint-ok _ _ sum ∙ ap (λ q. x.env.burn_block_height + q.0.cooldown_period) read1 in
      let (next, same5) = lift-ok (add_uint q2.0 1) q4.1 e5 in
      let nonce : q2.0 ≡ ch.safe.operation_nonce =
        ap (λ q. q.0) read2 ∙ ap (λ q. q.1.safe.operation_nonce) read1 in
      let before : q3.1.safe ≡ ch.safe =
        ap (λ c. c.safe) same3 ∙ ap (λ q. q.1.safe) read2 ∙ ap (λ q. q.1.safe) read1 in
      let stored : q4.1.safe ≡ set_operation q2.0 (stored_op q3.0) q3.1.safe =
        ap (λ q. q.1.safe) (update-ok x (set_operation q2.0 (stored_op q3.0)) q3.1 e4) in
      let counted : q6.1.safe ≡ set_nonce q5.0 q5.1.safe =
        ap (λ q. q.1.safe) (update-ok x (set_nonce q5.0) q5.1 e6) in
      let last : r.1.safe ≡ q6.1.safe =
        ap (λ c. c.safe) (lift-ok (ok q2.0) q7.1 rest7).1 ∙ outside-ok x _ q6.1 e7 in
      let number : q5.0 ≡ q2.0 + 1 = add_uint-ok q2.0 1 next in
      last
      ∙ counted
      ∙ ap (λ c. set_nonce q5.0 c.safe) same5
      ∙ ap (set_nonce q5.0) stored
      ∙ ap (λ k. set_nonce k (set_operation q2.0 (stored_op q3.0) q3.1.safe)) number
      ∙ ap (λ k. set_nonce (k + 1) (set_operation k (stored_op q3.0) q3.1.safe)) nonce
      ∙ ap₂
          (λ s after.
            set_nonce (ch.safe.operation_nonce + 1)
              (set_operation ch.safe.operation_nonce (stored_op after) s))
          before later

  create-Steps :
      (op_type : String) (n : ℕ) (to : String) (token extension : Option String)
      (payload : Option Bytes) (by_key : Bool)
      → StepsIf x
          (Always x)
          (create_pending_operation x op_type n to token extension payload by_key)
  create-Steps op_type n to token extension payload by_key = record {
    at = λ ch {r} p e.
        subst (Step x.env (view ch.safe))
          (sym (
            ap view (create_pending_operation-ok op_type n to token extension payload by_key ch e)
            ∙ view_ordered _ ch.safe))
          (orders _ refl (omega arith));
  }

module _ (x : Setting) (quiet : LeavesSafe x.ext) where
  ruleset order_rules =
      (steps_rules, frame_rules, create-Steps, fixed-AllowsCalls, spends_stx, spends_sbtc)

  panicking-Steps :
      {A : Type 0} (m : Call x A) → StepsIf x (Always x) m → StepsIf x (Always x) (panicking m)
  panicking-Steps m k = record { at = λ ch p e. k.at ch p (panicking-ok m ch e) }

  queue-Steps :
      (op_type : String) (n : ℕ) (to : String) (token : Option String) (payload : Option Bytes)
      (by_key : Bool)
      → StepsIf x (Always x) (queue x op_type n to token payload by_key)
  unfolding queue
  queue-Steps op_type n to token payload by_key = search (order_rules, panicking-Steps) depth 20

  pub stx_transfer-Steps :
      (n : ℕ) (to : String) (memo : Option Bytes) (sig : Option SigAuth) (gas : Option String)
      → StepsIf x (Always x) (stx_transfer x n to memo sig gas)
  unfolding stx_transfer stx_transfer_now
  stx_transfer-Steps n to memo sig gas = search (order_rules, queue-Steps) depth 20

  pub sip010_transfer-Steps :
      (n : ℕ) (to : String) (memo : Option Bytes) (token name : String) (sig : Option SigAuth)
      (gas : Option String)
      → StepsIf x (Always x) (sip010_transfer x n to memo token name sig gas)
  unfolding sip010_transfer sip010_transfer_now exceeds_if_sbtc spend_if_sbtc
  sip010_transfer-Steps n to memo token name sig gas = search (order_rules, queue-Steps) depth 20

  pub sbtc_initiate_withdrawal-Steps :
      (n : ℕ) (to : BtcRecipient) (fee : ℕ) (sig : Option SigAuth) (gas : Option String)
      → StepsIf x (Always x) (sbtc_initiate_withdrawal x n to fee sig gas)
  unfolding sbtc_initiate_withdrawal withdraw_now
  sbtc_initiate_withdrawal-Steps n to fee sig gas = search (order_rules, queue-Steps) depth 20
