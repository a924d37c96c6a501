-- ===== src/Safe/Queue/Final.antt =====
-- What is vetoed or executed in juice-safe-v7.clar stays so, over any run of transactions and whatever
-- the contracts that the caller names call back.
use mathlib.Core.Path.{subst}
use pillar_wallets_xyz.Base.{
  ℕ, ◌<◌, String, true, false, Option, none, some, List, [], ◌∷◌, ◌≡◌, ◌≢◌, ◌⊎◌, refl, sym, inl,
  inr, nat_eq,
}
use pillar_wallets_xyz.Clarity.Outcome.{Outcome, ok, err, abort}
use pillar_wallets_xyz.Clarity.Contract.{◌>>=◌, then-ok}
use pillar_wallets_xyz.Clarity.Contract.Keeps.{Keeps}
use pillar_wallets_xyz.Webauthn.Crypto.{Crypto}
use pillar_wallets_xyz.Safe.State.{Operation, get_pending_operation}
use pillar_wallets_xyz.Safe.External.{External, Env, Chain, Setting, Call, ChosenCall, visit}
use pillar_wallets_xyz.Safe.Execution
use pillar_wallets_xyz.Safe.Execution.{open_operation}
use pillar_wallets_xyz.Safe.Entry.{Entry, Tx, exec, run, setting, settle}
use pillar_wallets_xyz.Safe.Frame.{on_chain}
use pillar_wallets_xyz.Safe.Reentry.{Behaviour, reentrant, reentrant-Visits}
use pillar_wallets_xyz.Safe.Queue.Closed.{IsClosed, closed_kept, exec-closed_kept}
use pillar_wallets_xyz.Safe.Queue.Inversion.{IsOpen, open_operation-ok}

-- The operation that a call carries out, if it is one of the six.
abbrev pub executes_of : Entry → Option ℕ
executes_of (Entry.execute_pending_stx_transfer id memo) = some id
executes_of (Entry.execute_pending_stx_transfer_now id memo sig gas) = some id
executes_of (Entry.execute_pending_sbtc_transfer id memo) = some id
executes_of (Entry.execute_pending_sbtc_transfer_now id memo sig gas) = some id
executes_of (Entry.execute_pending_sbtc_withdrawal id) = some id
executes_of (Entry.execute_pending_sbtc_withdrawal_now id sig gas) = some id
executes_of _ = none

module _ (x : Setting) where
  -- All six begin by opening the operation.
  begins :
      (op_type : String) (i : ℕ) (rest : Operation → Call x (Unit {0})) {id : ℕ} (ch : Chain x.ext)
      {r : Unit {0} × Chain x.ext}
      → some i ≡ some id
      → (open_operation x op_type i >>= rest) ch ≡ ok r
      → (op : Operation) × IsOpen x id op ch ch
  begins op_type i rest {id} ch h e =
      let (q, first, second) = then-ok (open_operation x op_type i) rest ch e in
      let opened = open_operation-ok x op_type i ch first in
      let same : i ≡ id = cc in
      (
        q.0,
        record {
          found = subst (λ j. get_pending_operation j ch.safe ≡ some q.0) same opened.found;
          unexecuted = opened.unexecuted;
          unvetoed = opened.unvetoed;
          same = refl;
        },
      )

  executes-IsOpen :
      (e : Entry) {id : ℕ} (ch : Chain x.ext) {r : Unit {0} × Chain x.ext}
      → executes_of e ≡ some id
      → exec x e ch ≡ ok r
      → (op : Operation) × IsOpen x id op ch ch
  unfolding exec Execution.execute_pending_stx_transfer Execution.execute_pending_stx_transfer_now
      Execution.execute_pending_sbtc_transfer Execution.execute_pending_sbtc_transfer_now
      Execution.execute_pending_sbtc_withdrawal Execution.execute_pending_sbtc_withdrawal_now
  executes-IsOpen (Entry.execute_pending_stx_transfer i memo) ch h e = begins _ i _ ch h e
  executes-IsOpen (Entry.execute_pending_stx_transfer_now i memo sig gas) ch h e =
      begins _ i _ ch h e
  executes-IsOpen (Entry.execute_pending_sbtc_transfer i memo) ch h e = begins _ i _ ch h e
  executes-IsOpen (Entry.execute_pending_sbtc_transfer_now i memo sig gas) ch h e =
      begins _ i _ ch h e
  executes-IsOpen (Entry.execute_pending_sbtc_withdrawal i) ch h e = begins _ i _ ch h e
  executes-IsOpen (Entry.execute_pending_sbtc_withdrawal_now i sig gas) ch h e = begins _ i _ ch h e
  executes-IsOpen _ ch h e = absurd (cc)

module _ (c : Crypto) (ext : External)
    (visits : (env : Env) (call : ChosenCall)
      → Keeps (on_chain (setting c ext env) closed_kept) (visit (setting c ext env) call)) where
  run-closed_kept :
      (txs : List Tx) (ch : Chain ext) → closed_kept.rel ch.safe (run c ext txs ch).safe
  unfolding run on_chain
  run-closed_kept [] ch = closed_kept.none_made ch.safe
  run-closed_kept (tx ∷ txs) ch =
      closed_kept.both {t = (settle c ext ch (exec (setting c ext tx.env) tx.entry ch)).safe}
        (split (exec (setting c ext tx.env) tx.entry ch) refl) (run-closed_kept txs _)
    where
      split :
          (o : Outcome (Unit {0} × Chain ext))
          → exec (setting c ext tx.env) tx.entry ch ≡ o
          → closed_kept.rel ch.safe (settle c ext ch o).safe
      split (ok r) ran =
          (exec-closed_kept (setting c ext tx.env) (visits tx.env) tx.entry).at ch ran
      split (err n) ran = closed_kept.none_made ch.safe
      split abort ran = closed_kept.none_made ch.safe

-- If a pending operation stands under a number that has been given out and is marked as executed or
-- vetoed, then no call of the six entry points that carry it out ends in ok after any further
-- transactions, whatever the contracts that the caller names do, their calls back into the wallet
-- included, to any depth.
pub run-settled :
    (c : Crypto) (ext : External) (behaviour : ChosenCall → Chain ext → Behaviour ext.World) (n : ℕ)
    (ch : Chain ext) (txs : List Tx) (env : Env) (e : Entry) (id : ℕ) (op : Operation)
    (r : Unit {0} × Chain ext)
    → id < ch.safe.operation_nonce
    → get_pending_operation id ch.safe ≡ some op
    → (op.executed ≡ true) ⊎ (op.vetoed ≡ true)
    → executes_of e ≡ some id
    → exec
        (setting c (reentrant c ext behaviour n) env)
        e
        (run c (reentrant c ext behaviour n) txs ch)
      ≢ ok r
unfolding closed_kept
run-settled c ext behaviour n ch txs env e id op r below found closed executes ran =
    let others = reentrant c ext behaviour n in
    let kept =
      run-closed_kept c others (reentrant-Visits c ext behaviour closed_kept exec-closed_kept n) txs
        ch in
    let last : IsClosed (get_pending_operation id (run c others txs ch).safe) =
      kept.1 id below (subst IsClosed (sym found) closed) in
    let (op', opened) = executes-IsOpen (setting c others env) e _ executes ran in
    let still : IsClosed (some op') = subst IsClosed opened.found last in
    open_or_closed op' opened.unexecuted opened.unvetoed still
  where
    open_or_closed :
        (op' : Operation) → op'.executed ≡ false → op'.vetoed ≡ false → IsClosed (some op') → ⊥
    open_or_closed op' a b (inl h) = cc
    open_or_closed op' a b (inr h) = cc
