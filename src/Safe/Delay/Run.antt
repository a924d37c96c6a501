-- ===== src/Safe/Delay/Run.antt =====
-- The delay of juice-safe-v7.clar over runs of transactions.
use mathlib.Core.Path.{subst}
use pillar_wallets_xyz.Base.{arith, ℕ, Bool, List, [], ◌∷◌, ◌≡◌, refl, sym, nat_eq}
use pillar_wallets_xyz.Clarity.Outcome.{Outcome, ok, err, abort}
use pillar_wallets_xyz.Clarity.Contract.Keeps.{Keeps}
use pillar_wallets_xyz.Webauthn.Crypto.{Crypto}
use pillar_wallets_xyz.Safe.State.{initial}
use pillar_wallets_xyz.Safe.External.{External, Env, Setting, Chain, ChosenCall, visit, update}
use pillar_wallets_xyz.Safe.Config.{set_lock}
use pillar_wallets_xyz.Safe.Entry.{Entry, Tx, exec, run, setting, settle}
use pillar_wallets_xyz.Safe.Frame.{on_chain, Keeps-update}
use pillar_wallets_xyz.Safe.Reentry.{Behaviour, reentrant, reentrant-Visits}
use pillar_wallets_xyz.Safe.Frame.Entries
use pillar_wallets_xyz.Safe.Frame.Operations
use pillar_wallets_xyz.Safe.Delay.{
  InRange, HasRange, in_range, calls, settings, owners, operations, spending, queue, onboard-Keeps,
}
use pillar_wallets_xyz.Safe.Delay.Changes.{signal_config_change-Keeps, set_wallet_config-Keeps}

module _ (x : Setting)
    (visits : (call : ChosenCall) → Keeps (on_chain x in_range) (visit x call)) where
  exec-in_range : (e : Entry) → Keeps (on_chain x in_range) (exec x e)
  exec-in_range = Operations.exec-Keeps x in_range (record {
    calls = calls x visits;
    settings = settings x visits;
    locks = λ b. lock_set b;
    owners = owners x visits;
    operations = operations x visits;
    signals = signal_config_change-Keeps x;
    configures = set_wallet_config-Keeps x;
    onboards = onboard-Keeps x visits;
    transfers_stx =
        Entries.stx_transfer-Keeps x in_range (calls x visits) (spending x visits) (queue x visits);
    transfers_sip010 =
        Entries.sip010_transfer-Keeps x in_range (calls x visits) (spending x visits)
          (queue x visits);
    withdraws =
        Entries.sbtc_initiate_withdrawal-Keeps x in_range (calls x visits) (spending x visits)
          (queue x visits);
  })
    where
      lock_set : (b : Bool) → Keeps (on_chain x in_range) (update x (set_lock b))
      lock_set b = unfold in_range in (Keeps-update x in_range _ (λ s h. h))

module _ (c : Crypto) (ext : External)
    (visits : (env : Env) (call : ChosenCall)
      → Keeps (on_chain (setting c ext env) in_range) (visit (setting c ext env) call)) where
  settle-HasRange :
      (env : Env) (e : Entry) (ch : Chain ext)
      → HasRange ch.safe
      → HasRange (settle c ext ch (exec (setting c ext env) e ch)).safe
  unfolding on_chain in_range
  settle-HasRange env e ch h = split (exec (setting c ext env) e ch) refl
    where
      split :
          (o : Outcome (Unit {0} × Chain ext))
          → exec (setting c ext env) e ch ≡ o
          → HasRange (settle c ext ch o).safe
      split (ok r) ran = (exec-in_range (setting c ext env) (visits env) e).at ch ran h
      split (err n) ran = h
      split abort ran = h

  run-HasRange :
      (txs : List Tx) (ch : Chain ext) → HasRange ch.safe → HasRange (run c ext txs ch).safe
  unfolding run
  run-HasRange [] ch h = h
  run-HasRange (tx ∷ txs) ch h = run-HasRange txs _ (settle-HasRange tx.env tx.entry ch h)

-- From deployment on, the cooldown period is at least 144 and at most 4032 blocks after any
-- transactions, whatever the contracts that the caller names do, their calls back into the wallet
-- included, to any depth.
pub run-cooldown :
    (c : Crypto) (ext : External) (behaviour : ChosenCall → Chain ext → Behaviour ext.World) (n : ℕ)
    (start : Chain ext) (height : ℕ) (txs : List Tx)
    → start.safe ≡ initial height
    → InRange (run c (reentrant c ext behaviour n) txs start).safe.wallet_config.cooldown_period
unfolding initial
run-cooldown c ext behaviour n start height txs deployed =
    (run-HasRange c (reentrant c ext behaviour n)
      (reentrant-Visits c ext behaviour in_range exec-in_range n) txs start
      (subst HasRange (sym deployed) ((omega arith, omega arith), tt))).0
