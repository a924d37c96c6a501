-- ===== src/Safe/Used.antt =====
-- The record of used assertions of juice-safe-v7.clar only grows, if the contracts that the caller
-- names keep it from the moment on that the assertion of the call is recorded.
pub mod Spends
pub mod Signed
pub mod Once
use pillar_wallets_xyz.Base.{
  arith, ℕ, Bool, true, false, none, some, List, Bytes, ◌≡◌, refl, lookup, insert, bytes_eq,
}
use pillar_wallets_xyz.Base.Keys.{lookup-insert}
use pillar_wallets_xyz.Clarity.Contract.Keeps.{Change, Keeps}
use pillar_wallets_xyz.Safe.State.{Safe, Spent}
use pillar_wallets_xyz.Safe.External.{Setting, update, visit, ChosenCall}
use pillar_wallets_xyz.Safe.Signature.{is_assertion_used, mark_hash, mark_assertion}
use pillar_wallets_xyz.Safe.Spending.{set_spent, add_spent_gas, add_spent_stx, add_spent_sbtc}
use pillar_wallets_xyz.Safe.Entry.{Entry, exec}
use pillar_wallets_xyz.Safe.Frame.{on_chain, AllowsCalls, frame_rules, Keeps-update}
use pillar_wallets_xyz.Safe.Frame.Entries
use pillar_wallets_xyz.Safe.Frame.Operations

-- An entry that is there stays there when one is added.
stays {ℓ} :
    {V : Type ℓ} (key id : Bytes) (v : V) (m : List (Bytes × V))
    → elim (lookup id m) as (λ _. Bool) [ none ↦ false | some _ ↦ true ] ≡ true
    → elim (lookup id (insert key v m)) as (λ _. Bool) [ none ↦ false | some _ ↦ true ] ≡ true
stays key id v m h = rw lookup-insert (ground arith)

-- Every recorded assertion stays recorded.
unfoldable pub all_kept : Change Safe
all_kept = record {
  rel = λ s s'. (k : Bytes) → is_assertion_used k s ≡ true → is_assertion_used k s' ≡ true;
  none_made = λ s k h. h;
  both = λ first second k h. second k (first k h);
}

-- The same where `id` is recorded, and nothing where it is not.
unfoldable pub recorded : Bytes → Change Safe
recorded id = record {
  rel = λ s s'.
      is_assertion_used id s ≡ true
      → (k : Bytes) → is_assertion_used k s ≡ true
      → is_assertion_used k s' ≡ true;
  none_made = λ s used k h. h;
  both = λ first second used k h. second (first used id used) k (first used k h);
}

-- An update of other variables.
abbrev pub Elsewhere : (Safe → Safe) → Type 0
Elsewhere f = (s : Safe) → (f s).used_assertions ≡ s.used_assertions

kept_elsewhere : (f : Safe → Safe) → Elsewhere f → (s : Safe) → all_kept.rel s (f s)
unfolding all_kept is_assertion_used
kept_elsewhere f away s k h = rw (away s) h

pub marks_assertion : (id : Bytes) (s : Safe) → all_kept.rel s (mark_assertion id s)
unfolding all_kept is_assertion_used
marks_assertion key s k h = stays key k true s.used_assertions h

pub all_kept-recorded : (id : Bytes) (s s' : Safe) → all_kept.rel s s' → (recorded id).rel s s'
unfolding all_kept recorded
all_kept-recorded id s s' h used = h

module _ (x : Setting) where
  pub always : (f : Safe → Safe) → Elsewhere f → Keeps (on_chain x all_kept) (update x f)
  always f away = Keeps-update x all_kept f (kept_elsewhere f away)

module _ (x : Setting) (id : Bytes) where
  pub elsewhere : (f : Safe → Safe) → Elsewhere f → Keeps (on_chain x (recorded id)) (update x f)
  elsewhere f away =
      Keeps-update x (recorded id) f (λ s. all_kept-recorded id _ _ (kept_elsewhere f away s))

  set_spent-Keeps : (spent : Spent) → Keeps (on_chain x (recorded id)) (update x (set_spent spent))
  set_spent-Keeps spent = elsewhere _ (λ s. refl)

  spends_gas : (n : ℕ) → Keeps (on_chain x (recorded id)) (add_spent_gas x n)
  unfolding add_spent_gas
  spends_gas n = search (frame_rules, set_spent-Keeps) depth 20

  pub spends_stx : (n : ℕ) → Keeps (on_chain x (recorded id)) (add_spent_stx x n)
  unfolding add_spent_stx
  spends_stx n = search (frame_rules, set_spent-Keeps) depth 20

  pub spends_sbtc : (n : ℕ) → Keeps (on_chain x (recorded id)) (add_spent_sbtc x n)
  unfolding add_spent_sbtc
  spends_sbtc n = search (frame_rules, set_spent-Keeps) depth 20

module _ (x : Setting) (id : Bytes)
    (visits : (call : ChosenCall) → Keeps (on_chain x (recorded id)) (visit x call)) where
  pub used-AllowsCalls : AllowsCalls x (recorded id)
  used-AllowsCalls = record {
    marks_hash = λ hash pubkey s.
        all_kept-recorded id _ _ (kept_elsewhere (mark_hash hash pubkey) (λ _. refl) s);
    marks_assertion = λ key s. all_kept-recorded id _ _ (marks_assertion key s);
    active = λ height s.
        all_kept-recorded id _ _
          (kept_elsewhere (λ s'. record s' { last_activity_block = height }) (λ _. refl) s);
    spends_gas = spends_gas x id;
    visits = visits;
  }

module _ (x : Setting) (id : Bytes) where
  pub used-AllowsSettings : Entries.AllowsSettings x (recorded id)
  used-AllowsSettings = record {
    pending_gas = λ p. elsewhere x id _ (λ s. refl);
    max_gas = λ p. elsewhere x id _ (λ s. refl);
  }

  pub used-AllowsConfig : Entries.AllowsConfig x (recorded id)
  used-AllowsConfig = record {
    pending = λ p. elsewhere x id _ (λ s. refl);
    config = λ p. elsewhere x id _ (λ s. refl);
    signal = λ p n. elsewhere x id _ (λ s. refl);
  }

  pub used-AllowsOwners : Entries.AllowsOwners x (recorded id)
  used-AllowsOwners = record {
    pending_transfer = λ p. elsewhere x id _ (λ s. refl);
    pending_recovery = λ p. elsewhere x id _ (λ s. refl);
    recovery = λ p. elsewhere x id _ (λ s. refl);
    owner = λ p. elsewhere x id _ (λ s. refl);
    adds = λ p. elsewhere x id _ (λ s. refl);
    drops = λ p. elsewhere x id _ (λ s. refl);
    registers = λ key p. elsewhere x id _ (λ s. refl);
    initialized = elsewhere x id _ (λ s. refl);
  }

  pub used-AllowsOperations : Operations.AllowsOperations x (recorded id)
  used-AllowsOperations = record {
    executes = λ i op. elsewhere x id _ (λ s. refl);
    vetoes = λ i op. elsewhere x id _ (λ s. refl);
  }

  pub used-AllowsSpending : Entries.AllowsSpending x (recorded id)
  used-AllowsSpending = record { stx = spends_stx x id; sbtc = spends_sbtc x id }

module _ (x : Setting) (id : Bytes)
    (visits : (call : ChosenCall) → Keeps (on_chain x (recorded id)) (visit x call)) where
  pub used-AllowsQueue : Entries.AllowsQueue x (recorded id)
  used-AllowsQueue = record {
    creates = Operations.create_pending_operation-Keeps x (recorded id) (record {
      sets = λ i op. elsewhere x id _ (λ s. refl);
      counts = λ n. elsewhere x id _ (λ s. refl);
    });
  }

  pub exec-recorded : (e : Entry) → Keeps (on_chain x (recorded id)) (exec x e)
  exec-recorded = Operations.exec-Keeps x (recorded id) (record {
    calls = (used-AllowsCalls x id visits);
    settings = (used-AllowsSettings x id);
    locks = λ p. elsewhere x id _ (λ s. refl);
    owners = (used-AllowsOwners x id);
    operations = (used-AllowsOperations x id);
    signals =
        Entries.signal_config_change-Keeps x (recorded id) (used-AllowsCalls x id visits)
          (used-AllowsConfig x id);
    configures =
        Entries.set_wallet_config-Keeps x (recorded id) (used-AllowsCalls x id visits)
          (used-AllowsConfig x id);
    onboards =
        Entries.onboard-Keeps x (recorded id) (used-AllowsCalls x id visits)
          (used-AllowsOwners x id) (used-AllowsConfig x id);
    transfers_stx =
        Entries.stx_transfer-Keeps x (recorded id) (used-AllowsCalls x id visits)
          (used-AllowsSpending x id) used-AllowsQueue;
    transfers_sip010 =
        Entries.sip010_transfer-Keeps x (recorded id) (used-AllowsCalls x id visits)
          (used-AllowsSpending x id) used-AllowsQueue;
    withdraws =
        Entries.sbtc_initiate_withdrawal-Keeps x (recorded id) (used-AllowsCalls x id visits)
          (used-AllowsSpending x id) used-AllowsQueue;
  })
