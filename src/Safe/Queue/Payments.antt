-- ===== src/Safe/Queue/Payments.antt =====
-- The veto and the six ways to carry a pending operation out, as steps of the queue.
use mathlib.Core.Path.{subst}
use pillar_wallets_xyz.Base.{
  ℕ, String, Bool, true, false, Option, some, Bytes, ◌≡◌, ◌≢◌, sym, ap, ◌∙◌, inl, inr,
  if◌then◌else◌,
}
use pillar_wallets_xyz.Clarity.Outcome.{ok}
use pillar_wallets_xyz.Clarity.Contract.{◌>>=◌, require-ok}
use pillar_wallets_xyz.Clarity.Contract.Keeps.{Keeps, Keeps-require, Keeps-lift}
use pillar_wallets_xyz.Safe.State.{Safe, Operation, get_pending_operation}
use pillar_wallets_xyz.Safe.State.Code
use pillar_wallets_xyz.Safe.External.{
  Chain, Setting, Call, read, update, read-ok, update-ok, LeavesSafe,
}
use pillar_wallets_xyz.Safe.Signature.{SigAuth}
use pillar_wallets_xyz.Safe.Operations.{set_operation, veto_operation}
use pillar_wallets_xyz.Safe.Execution.{
  open_operation, by_admin_after, by_passkey_now, mark_executed, execute_pending_stx_transfer,
  execute_pending_stx_transfer_now, execute_pending_sbtc_transfer,
  execute_pending_sbtc_transfer_now, execute_pending_sbtc_withdrawal,
  execute_pending_sbtc_withdrawal_now,
}
use pillar_wallets_xyz.Safe.Frame.{on_chain, AllowsCalls, Keeps-read, passkey_or_admin-Keeps}
use pillar_wallets_xyz.Safe.Frame.Operations.{
  execution_rules, open_operation-Keeps, by_admin_after-Keeps, by_passkey_now-Keeps,
}
use pillar_wallets_xyz.Safe.Queue.{
  Queue, Step, vetoes, pays, waiting, vetoed, done, Route, put, view, item_of, item_at, phase_of,
}
use pillar_wallets_xyz.Safe.Queue.Inversion.{
  open_operation-ok, by_admin_after-ok, by_passkey_now-ok, view-set_operation, not-false,
  lift-unwrap-ok,
}
use pillar_wallets_xyz.Safe.Queue.Rules.{
  queue_fixed, fixed-AllowsCalls, StepsIf, Steps-learn, steps_rules, Steps-later, Steps-first,
}

abbrev Holds : ℕ → Operation → Queue → Type 0
Holds id op q = q.item id ≡ some (item_of op)

abbrev Opened : ℕ → Operation → Queue → Type 0
Opened id op q = Holds id op q × (op.executed ≡ false) × (op.vetoed ≡ false)

holds :
    (id : ℕ) (op : Operation) (s : Safe)
    → get_pending_operation id s ≡ some op
    → Holds id op (view s)
unfolding view
holds id op s found = ap item_at found

waiting_phase : (op : Operation) → op.executed ≡ false → op.vetoed ≡ false → phase_of op ≡ waiting
waiting_phase op unexecuted unvetoed = rw (unexecuted, unvetoed)

module _ (x : Setting) where
  record Payable (id : ℕ) (op : Operation) (q : Queue) : Type 0 where
    opened : Opened id op q
    route : Route x.env q (item_of op)

  mark_executed-Steps :
      (id : ℕ) (op : Operation) → StepsIf x (Payable id op) (mark_executed x id op)
  unfolding mark_executed
  mark_executed-Steps id op = record {
    at = λ ch {r} p e.
        let end = update-ok x (set_operation id (record op { executed = true })) ch e in
        let after : view r.1.safe ≡ put id (record (item_of op) { phase = done }) (view ch.safe) =
          ap (λ r'. view r'.1.safe) end
          ∙ view-set_operation id (record op { executed = true }) ch.safe in
        subst (Step x.env (view ch.safe)) (sym after)
          (pays id (item_of op) p.opened.0 (waiting_phase op p.opened.1 p.opened.2) p.route);
  }

  abbrev pub Always : Queue → Type 0
  Always q = Unit {0}

  -- An entry point that begins with `open_operation` and then asks for the authority.
  pays-Steps :
      (op_type : String) (id : ℕ) (authority : Operation → Call x (Unit {0}))
      (rest : Operation → Call x (Unit {0}))
      → ((op : Operation) → Keeps (on_chain x queue_fixed) (authority op))
      → ((op : Operation) (ch : Chain x.ext) (r : Unit {0} × Chain x.ext)
          → authority op ch ≡ ok r
          → Route x.env (view ch.safe) (item_of op))
      → ((op : Operation) → StepsIf x (Payable id op) (rest op))
      → StepsIf x Always (open_operation x op_type id >>= λ op. authority op >>= λ _. rest op)
  pays-Steps op_type id authority rest keeps routes pays_rest =
      Steps-learn x Always (Opened id) _ _ (open_operation-Keeps x queue_fixed op_type id)
        (λ ch r p e.
          let found = open_operation-ok x op_type id ch e in
          (holds id r.0 ch.safe found.found, found.unexecuted, found.unvetoed))
        λ op.
          Steps-learn x (Opened id op) (λ _. Payable id op) _ _ (keeps op)
            (λ ch r p e. record { opened = p; route = routes op ch r e }) λ _. pays_rest op

  by_admin :
      (op : Operation) (ch : Chain x.ext) (r : Unit {0} × Chain x.ext)
      → by_admin_after x op ch ≡ ok r
      → Route x.env (view ch.safe) (item_of op)
  by_admin op ch r e = inl (by_admin_after-ok x op ch e)

  by_key :
      (id : ℕ) (sig : SigAuth) (gas : Option String) (op : Operation) (ch : Chain x.ext)
      (r : Unit {0} × Chain x.ext)
      → by_passkey_now x id op sig gas ch ≡ ok r
      → Route x.env (view ch.safe) (item_of op)
  unfolding view
  by_key id sig gas op ch r e = inr (by_passkey_now-ok x id op sig gas ch e)

module _ (x : Setting) (quiet : LeavesSafe x.ext) where
  calls : AllowsCalls x queue_fixed
  calls = fixed-AllowsCalls x quiet

  admin-Keeps : (op : Operation) → Keeps (on_chain x queue_fixed) (by_admin_after x op)
  admin-Keeps = by_admin_after-Keeps x queue_fixed calls

  ruleset payment_rules = (steps_rules, execution_rules, mark_executed-Steps, fixed-AllowsCalls)

  pub execute_stx-Steps :
      (id : ℕ) (memo : Option Bytes) → StepsIf x (Always x) (execute_pending_stx_transfer x id memo)
  unfolding execute_pending_stx_transfer
  execute_stx-Steps id memo =
      pays-Steps x "stx-transfer" id _ _ admin-Keeps (by_admin x)
        (λ op. search payment_rules depth 20)

  pub execute_sbtc-Steps :
      (id : ℕ) (memo : Option Bytes)
      → StepsIf x (Always x) (execute_pending_sbtc_transfer x id memo)
  unfolding execute_pending_sbtc_transfer
  execute_sbtc-Steps id memo =
      pays-Steps x "sbtc-transfer" id _ _ admin-Keeps (by_admin x)
        (λ op. search payment_rules depth 20)

  pub execute_withdrawal-Steps :
      (id : ℕ) → StepsIf x (Always x) (execute_pending_sbtc_withdrawal x id)
  unfolding execute_pending_sbtc_withdrawal
  execute_withdrawal-Steps id =
      pays-Steps x "sbtc-withdraw" id _ _ admin-Keeps (by_admin x)
        (λ op. search payment_rules depth 20)

  module _ (id : ℕ) (sig : SigAuth) (gas : Option String) where
    key-Keeps : (op : Operation) → Keeps (on_chain x queue_fixed) (by_passkey_now x id op sig gas)
    key-Keeps op = by_passkey_now-Keeps x queue_fixed calls id op sig gas

    pub execute_stx_now-Steps :
        (memo : Option Bytes)
        → StepsIf x (Always x) (execute_pending_stx_transfer_now x id memo sig gas)
    unfolding execute_pending_stx_transfer_now
    execute_stx_now-Steps memo =
        pays-Steps x "stx-transfer" id _ _ key-Keeps (by_key x id sig gas)
          (λ op. search payment_rules depth 20)

    pub execute_sbtc_now-Steps :
        (memo : Option Bytes)
        → StepsIf x (Always x) (execute_pending_sbtc_transfer_now x id memo sig gas)
    unfolding execute_pending_sbtc_transfer_now
    execute_sbtc_now-Steps memo =
        pays-Steps x "sbtc-transfer" id _ _ key-Keeps (by_key x id sig gas)
          (λ op. search payment_rules depth 20)

    pub execute_withdrawal_now-Steps :
        StepsIf x (Always x) (execute_pending_sbtc_withdrawal_now x id sig gas)
    unfolding execute_pending_sbtc_withdrawal_now
    execute_withdrawal_now-Steps =
        pays-Steps x "sbtc-withdraw" id _ _ key-Keeps (by_key x id sig gas)
          (λ op. search payment_rules depth 20)

  vetoable : (op : Operation) → op.executed ≡ false → phase_of op ≢ done
  vetoable op unexecuted h = split op.vetoed (rw unexecuted at h)
    where
      split : (b : Bool) → (if b then vetoed else waiting) ≡ done → ⊥
      split true e = absurd (cc)
      split false e = absurd (cc)

  mark_vetoed-Steps :
      (id : ℕ) (op : Operation)
      → StepsIf x
          (λ q. Holds id op q × (op.executed ≡ false))
          (update x (set_operation id (record op { vetoed = true })))
  mark_vetoed-Steps id op = record {
    at = λ ch {r} p e.
        let end = update-ok x (set_operation id (record op { vetoed = true })) ch e in
        let phase : phase_of (record op { vetoed = true }) ≡ vetoed = rw p.1 in
        let after : view r.1.safe ≡ put id (record (item_of op) { phase = vetoed }) (view ch.safe) =
          ap (λ r'. view r'.1.safe) end
          ∙ view-set_operation id (record op { vetoed = true }) ch.safe
          ∙ ap (λ ph. put id (record (item_of op) { phase = ph }) (view ch.safe)) phase in
        subst (Step x.env (view ch.safe)) (sym after)
          (vetoes id (item_of op) p.0 (vetoable op p.1));
  }

  Seen : ℕ → Option Operation → Queue → Type 0
  Seen id o q = q.item id ≡ item_at o

  seen :
      (id : ℕ) (ch : Chain x.ext) (r : Option Operation × Chain x.ext)
      → read x (get_pending_operation id) ch ≡ ok r
      → Seen id r.0 (view ch.safe)
  unfolding Seen view
  seen id ch r e = sym (ap (λ q. item_at q.0) (read-ok x (get_pending_operation id) ch e))

  pub veto_operation-Steps :
      (id : ℕ) (sig : Option SigAuth) (gas : Option String)
      → StepsIf x (Always x) (veto_operation x id sig gas)
  unfolding veto_operation Seen
  veto_operation-Steps id sig gas =
      Steps-learn x (Always x) (Seen id) _ _ (Keeps-read x queue_fixed _)
        (λ ch r p e. seen id ch r e)
        λ o.
          Steps-learn x (Seen id o) (λ op. Holds id op) _ _ (Keeps-lift _)
            (λ ch r p e. p ∙ ap item_at (lift-unwrap-ok o Code.invalid_operation ch e).0)
            λ op.
              Steps-later x (Holds id op) _ _ (passkey_or_admin-Keeps x queue_fixed calls _ sig gas)
                λ _.
                  Steps-learn x (Holds id op) (λ _ q. Holds id op q × (op.executed ≡ false)) _ _
                    (Keeps-require _ _)
                    (λ ch r p e. (p, not-false op.executed (require-ok _ _ ch e).0))
                    λ _.
                      Steps-first x _ _ _ (mark_vetoed-Steps id op)
                        (λ _. search payment_rules depth 20)
