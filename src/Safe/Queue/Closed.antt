-- ===== src/Safe/Queue/Closed.antt =====
-- Every entry point of juice-safe-v7.clar keeps a closed operation closed.
use mathlib.Core.Path.{subst}
use pillar_wallets_xyz.Base.{
  arith, ℕ, ◌<◌, ◌≤◌, Bool, true, false, Option, none, some, ◌≡◌, ◌⊎◌, refl, sym, inl, inr, ◌==◌,
  nat_eq, lookup, if◌then◌else◌,
}
use pillar_wallets_xyz.Base.Keys.{lookup-insert}
use pillar_wallets_xyz.Clarity.Contract.Keeps.{Change, Keeps}
use pillar_wallets_xyz.Safe.State.{Safe, Spent, Operation, get_pending_operation}
use pillar_wallets_xyz.Safe.External.{Setting, ChosenCall, visit, update}
use pillar_wallets_xyz.Safe.Spending.{set_spent, add_spent_gas, add_spent_stx, add_spent_sbtc}
use pillar_wallets_xyz.Safe.Operations.{set_operation}
use pillar_wallets_xyz.Safe.Entry.{Entry, exec}
use pillar_wallets_xyz.Safe.Frame.{on_chain, AllowsCalls, frame_rules, Keeps-update}
use pillar_wallets_xyz.Safe.Frame.Entries
use pillar_wallets_xyz.Safe.Frame.Operations
use pillar_wallets_xyz.Safe.Queue.Orders.{create_pending_operation-ok}

abbrev pub IsClosed : Option Operation → Type 0
IsClosed none = ⊥
IsClosed (some op) = (op.executed ≡ true) ⊎ (op.vetoed ≡ true)

-- Numbers are given out in order, and what is closed under one of them stays closed.
unfoldable pub closed_kept : Change Safe
closed_kept = record {
  rel = λ s s'.
      (s.operation_nonce ≤ s'.operation_nonce)
      × ((id : ℕ)
          → id < s.operation_nonce
          → IsClosed (get_pending_operation id s)
          → IsClosed (get_pending_operation id s'));
  none_made = λ s. (omega arith, λ id below h. h);
  both =
      λ first second. (omega arith, λ id below h. second.1 id (omega arith) (first.1 id below h));
}

-- A write at another number, or of what is closed, keeps it.
put-IsClosed :
    (i id : ℕ) (op : Operation) (s : Safe)
    → ((i == id) ≡ true → IsClosed (some op))
    → IsClosed (get_pending_operation id s)
    → IsClosed (get_pending_operation id (set_operation i op s))
unfolding get_pending_operation
put-IsClosed i id op s new h =
    subst IsClosed (sym (lookup-insert i id op s.pending_operations)) (split (i == id) new)
  where
    split :
        (b : Bool)
        → (b ≡ true → IsClosed (some op))
        → IsClosed (if b then some op else lookup id s.pending_operations)
    split true new' = new' refl
    split false new' = h

module _ (x : Setting)
    (visits : (call : ChosenCall) → Keeps (on_chain x closed_kept) (visit x call)) where
  same :
      (f : Safe → Safe)
      → ((s : Safe) → (f s).operation_nonce ≡ s.operation_nonce)
      → ((s : Safe) → (f s).pending_operations ≡ s.pending_operations)
      → Keeps (on_chain x closed_kept) (update x f)
  unfolding closed_kept get_pending_operation
  same f nonce operations = Keeps-update x closed_kept f λ s. (
    subst (λ n. s.operation_nonce ≤ n) (sym (nonce s)) (omega arith),
    λ id below h. subst (λ m. IsClosed (lookup id m)) (sym (operations s)) h,
  )

  set_spent-Keeps : (spent : Spent) → Keeps (on_chain x closed_kept) (update x (set_spent spent))
  set_spent-Keeps spent = same _ (λ s. refl) (λ s. refl)

  spends_gas : (n : ℕ) → Keeps (on_chain x closed_kept) (add_spent_gas x n)
  unfolding add_spent_gas
  spends_gas n = search (frame_rules, set_spent-Keeps) depth 20

  spends_stx : (n : ℕ) → Keeps (on_chain x closed_kept) (add_spent_stx x n)
  unfolding add_spent_stx
  spends_stx n = search (frame_rules, set_spent-Keeps) depth 20

  spends_sbtc : (n : ℕ) → Keeps (on_chain x closed_kept) (add_spent_sbtc x n)
  unfolding add_spent_sbtc
  spends_sbtc n = search (frame_rules, set_spent-Keeps) depth 20

  calls : AllowsCalls x closed_kept
  unfolding closed_kept get_pending_operation
  calls = record {
    marks_hash = λ hash pubkey s. (omega arith, λ id below h. h);
    marks_assertion = λ key s. (omega arith, λ id below h. h);
    active = λ height s. (omega arith, λ id below h. h);
    spends_gas = spends_gas;
    visits = visits;
  }

  settings : Entries.AllowsSettings x closed_kept
  settings = record {
    pending_gas = λ p. same _ (λ s. refl) (λ s. refl);
    max_gas = λ n. same _ (λ s. refl) (λ s. refl);
  }

  config : Entries.AllowsConfig x closed_kept
  config = record {
    pending = λ p. same _ (λ s. refl) (λ s. refl);
    config = λ p. same _ (λ s. refl) (λ s. refl);
    signal = λ p n. same _ (λ s. refl) (λ s. refl);
  }

  owners : Entries.AllowsOwners x closed_kept
  owners = record {
    pending_transfer = λ p. same _ (λ s. refl) (λ s. refl);
    pending_recovery = λ p. same _ (λ s. refl) (λ s. refl);
    recovery = λ p. same _ (λ s. refl) (λ s. refl);
    owner = λ p. same _ (λ s. refl) (λ s. refl);
    adds = λ p. same _ (λ s. refl) (λ s. refl);
    drops = λ p. same _ (λ s. refl) (λ s. refl);
    registers = λ key p. same _ (λ s. refl) (λ s. refl);
    initialized = same _ (λ s. refl) (λ s. refl);
  }

  -- Both writes close the operation, even where what was read is stale.
  operations : Operations.AllowsOperations x closed_kept
  unfolding closed_kept
  operations = record {
    executes = λ i op.
        Keeps-update x closed_kept (set_operation i (record op { executed = true }))
          λ s. (omega arith, λ id below h. put-IsClosed i id _ s (λ e. inl refl) h);
    vetoes = λ i op.
        Keeps-update x closed_kept (set_operation i (record op { vetoed = true }))
          λ s. (omega arith, λ id below h. put-IsClosed i id _ s (λ e. inr refl) h);
  }

  apart : (n id : ℕ) → id < n → (n == id) ≡ true → ⊥
  apart n id below e = ground arith

  queue : Entries.AllowsQueue x closed_kept
  unfolding closed_kept on_chain get_pending_operation
  queue = record {
    creates = λ op_type n to token extension payload by_key. record {
      at = λ ch {r} e.
          let stored =
            create_pending_operation-ok x op_type n to token extension payload by_key ch e in
          subst (λ s. closed_kept.rel ch.safe s) (sym stored)
            (
              omega arith,
              λ id below h.
                  put-IsClosed ch.safe.operation_nonce id _ ch.safe
                    (λ same_id. absurd (apart ch.safe.operation_nonce id below same_id)) h,
            );
    };
  }

  spending : Entries.AllowsSpending x closed_kept
  spending = record { stx = spends_stx; sbtc = spends_sbtc }

  pub exec-closed_kept : (e : Entry) → Keeps (on_chain x closed_kept) (exec x e)
  exec-closed_kept = Operations.exec-Keeps x closed_kept (record {
    calls = calls;
    settings = settings;
    locks = λ b. same _ (λ s. refl) (λ s. refl);
    owners = owners;
    operations = operations;
    signals = Entries.signal_config_change-Keeps x closed_kept calls config;
    configures = Entries.set_wallet_config-Keeps x closed_kept calls config;
    onboards = Entries.onboard-Keeps x closed_kept calls owners config;
    transfers_stx = Entries.stx_transfer-Keeps x closed_kept calls spending queue;
    transfers_sip010 = Entries.sip010_transfer-Keeps x closed_kept calls spending queue;
    withdraws = Entries.sbtc_initiate_withdrawal-Keeps x closed_kept calls spending queue;
  })
