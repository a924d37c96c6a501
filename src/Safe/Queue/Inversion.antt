-- ===== src/Safe/Queue/Inversion.antt =====
-- What the helpers on pending operations have checked and changed when they end in `ok`.
use mathlib.Core.Path.{fun_ext}
use pillar_wallets_xyz.Base.{
  ℕ, ◌≤◌, String, Bool, true, false, not, Option, none, some, ◌≡◌, refl, sym, ap, ◌∙◌, leb, leb→le,
  lookup, insert, nat_eq, string_eq, ◌==◌, if◌then◌else◌,
}
use pillar_wallets_xyz.Base.Keys.{lookup-insert}
use pillar_wallets_xyz.Clarity.Outcome.{ok, unwrap}
use pillar_wallets_xyz.Clarity.Contract.{then-ok, require, require-ok, lift}
use pillar_wallets_xyz.Safe.State.{Safe, Operation, get_pending_operation}
use pillar_wallets_xyz.Safe.State.Code
use pillar_wallets_xyz.Safe.External.{Chain, Setting, read, read-ok}
use pillar_wallets_xyz.Safe.Signature.{SigAuth}
use pillar_wallets_xyz.Safe.Operations.{set_operation}
use pillar_wallets_xyz.Safe.Execution.{open_operation, by_admin_after, by_passkey_now}
use pillar_wallets_xyz.Safe.Queue.{view, put, item_of, item_at}

pub not-false : (b : Bool) → not b ≡ true → b ≡ false
not-false true h = absurd (cc)
not-false false h = refl

-- Writing an operation is writing its item.
pub view-set_operation :
    (id : ℕ) (op : Operation) (s : Safe)
    → view (set_operation id op s) ≡ put id (item_of op) (view s)
unfolding view get_pending_operation
view-set_operation id op s =
    ap (λ item. record { next = s.operation_nonce; item = item; locked = s.token_lock_enabled })
      (fun_ext λ j. at_key j)
  where
    pushed :
        (b : Bool) (o : Option Operation)
        → item_at (if b then some op else o) ≡ (if b then some (item_of op) else item_at o)
    pushed true o = refl
    pushed false o = refl

    at_key :
        (j : ℕ)
        → item_at (lookup j (insert id op s.pending_operations))
          ≡ (if id == j then some (item_of op) else item_at (lookup j s.pending_operations))
    at_key j = ap item_at (lookup-insert id j op s.pending_operations) ∙ pushed (id == j) _

pub lift-unwrap-ok :
    {S A : Type 0} (o : Option A) (e : ℕ) (s : S) {r : A × S}
    → lift (unwrap o e) s ≡ ok r
    → (o ≡ some r.0) × (r.1 ≡ s)
unfolding lift
lift-unwrap-ok none e s h = absurd (cc)
lift-unwrap-ok (some a) e s h = (cc, cc)

module _ (x : Setting) where
  -- The operation that the entry points go on with.
  pub record IsOpen (id : ℕ) (op : Operation) (ch ch' : Chain x.ext) : Type 0 where
    pub found : get_pending_operation id ch.safe ≡ some op
    pub unexecuted : op.executed ≡ false
    pub unvetoed : op.vetoed ≡ false
    pub same : ch' ≡ ch

  pub open_operation-ok :
      (op_type : String) (id : ℕ) (ch : Chain x.ext) {r : Operation × Chain x.ext}
      → open_operation x op_type id ch ≡ ok r
      → IsOpen id r.0 ch r.1
  unfolding open_operation lift
  open_operation-ok op_type id ch {r} e =
      let (q1, e1, rest1) = then-ok (read x (get_pending_operation id)) _ ch e in
      let (q2, e2, rest2) = then-ok (lift (unwrap q1.0 Code.invalid_operation)) _ q1.1 rest1 in
      let (q3, e3, rest3) = then-ok (require (q2.0.op_type == op_type) _) _ q2.1 rest2 in
      let (q4, e4, rest4) = then-ok (require (not q2.0.executed) _) _ q3.1 rest3 in
      let (q5, e5, rest5) = then-ok (require (not q2.0.vetoed) _) _ q4.1 rest4 in
      let seen = read-ok x (get_pending_operation id) ch e1 in
      let (some_op, same2) = lift-unwrap-ok q1.0 _ q1.1 e2 in
      let (typed, same3) = require-ok _ _ q2.1 e3 in
      let (open4, same4) = require-ok _ _ q3.1 e4 in
      let (open5, same5) = require-ok _ _ q4.1 e5 in
      let last : (q2.0, q5.1) ≡ r = cc in
      let op : q2.0 ≡ r.0 = ap (λ p. p.0) last in
      record {
        found = sym (ap (λ p. p.0) seen) ∙ some_op ∙ ap some op;
        unexecuted = ap (λ o. o.executed) (sym op) ∙ not-false _ open4;
        unvetoed = ap (λ o. o.vetoed) (sym op) ∙ not-false _ open5;
        same =
            sym (ap (λ p. p.1) last)
            ∙ ap (λ p. p.1) same5
            ∙ ap (λ p. p.1) same4
            ∙ ap (λ p. p.1) same3
            ∙ same2
            ∙ ap (λ p. p.1) seen;
      }

  pub by_admin_after-ok :
      (op : Operation) (ch : Chain x.ext) {r : Unit {0} × Chain x.ext}
      → by_admin_after x op ch ≡ ok r
      → op.execute_after ≤ x.env.burn_block_height
  unfolding by_admin_after
  by_admin_after-ok op ch e =
      let (q, first, rest) =
        then-ok (require (leb op.execute_after x.env.burn_block_height) _) _ ch e in
      leb→le _ _ (require-ok _ _ ch first).0

  pub by_passkey_now-ok :
      (id : ℕ) (op : Operation) (sig : SigAuth) (gas : Option String) (ch : Chain x.ext)
      {r : Unit {0} × Chain x.ext}
      → by_passkey_now x id op sig gas ch ≡ ok r
      → (op.passkey_created ≡ false) × (ch.safe.token_lock_enabled ≡ false)
  unfolding by_passkey_now
  by_passkey_now-ok id op sig gas ch e =
      let (q1, e1, rest1) = then-ok (require (not op.passkey_created) _) _ ch e in
      let (q2, e2, rest2) = then-ok (read x (λ s. s.token_lock_enabled)) _ q1.1 rest1 in
      let (q3, e3, rest3) = then-ok (require (not q2.0) _) _ q2.1 rest2 in
      let (allowed, same1) = require-ok _ _ ch e1 in
      let (unlocked, same3) = require-ok _ _ q2.1 e3 in
      let seen = read-ok x (λ s. s.token_lock_enabled) q1.1 e2 in
      (
        not-false _ allowed,
        sym (ap (λ p. p.1.safe.token_lock_enabled) same1)
            ∙ sym (ap (λ p. p.0) seen)
            ∙ not-false _ unlocked,
      )
