-- ===== src/Safe/Queue/Rules.antt =====
-- Calls of juice-safe-v7.clar as steps of the queue, one rule for each way to build a call.
use mathlib.Core.Path.{subst}
use pillar_wallets_xyz.Base.{ℕ, Bool, true, false, ◌≡◌, refl, sym, ◌∙◌, if◌then◌else◌}
use pillar_wallets_xyz.Clarity.Outcome.{ok}
use pillar_wallets_xyz.Clarity.Contract.{◌>>=◌, then-ok}
use pillar_wallets_xyz.Clarity.Contract.Keeps.{Change, Keeps}
use pillar_wallets_xyz.Safe.State.{Safe, Spent, get_pending_operation}
use pillar_wallets_xyz.Safe.External.{Chain, Setting, Call, update, LeavesSafe}
use pillar_wallets_xyz.Safe.Spending.{set_spent, add_spent_gas, add_spent_stx, add_spent_sbtc}
use pillar_wallets_xyz.Safe.Frame.{
  on_chain, AllowsCalls, frame_rules, Keeps-update, LeavesSafe-visits,
}
use pillar_wallets_xyz.Safe.Frame.Entries
use pillar_wallets_xyz.Safe.Queue.{Queue, Step, idle, view}

unfoldable pub queue_fixed : Change Safe
queue_fixed = record {
  rel = λ s s'. view s' ≡ view s;
  none_made = λ s. refl;
  both = λ first second. second ∙ first;
}

module _ (x : Setting) where
  pub fixes :
      (f : Safe → Safe)
      → ((s : Safe) → view (f s) ≡ view s)
      → Keeps (on_chain x queue_fixed) (update x f)
  unfolding queue_fixed
  fixes f k = Keeps-update x queue_fixed f k

  set_spent-Keeps : (spent : Spent) → Keeps (on_chain x queue_fixed) (update x (set_spent spent))
  unfolding view get_pending_operation
  set_spent-Keeps spent = fixes _ (λ s. refl)

  spends_gas : (n : ℕ) → Keeps (on_chain x queue_fixed) (add_spent_gas x n)
  unfolding add_spent_gas
  spends_gas n = search (frame_rules, set_spent-Keeps) depth 20

  pub spends_stx : (n : ℕ) → Keeps (on_chain x queue_fixed) (add_spent_stx x n)
  unfolding add_spent_stx
  spends_stx n = search (frame_rules, set_spent-Keeps) depth 20

  pub spends_sbtc : (n : ℕ) → Keeps (on_chain x queue_fixed) (add_spent_sbtc x n)
  unfolding add_spent_sbtc
  spends_sbtc n = search (frame_rules, set_spent-Keeps) depth 20

  pub fixed-AllowsCalls : LeavesSafe x.ext → AllowsCalls x queue_fixed
  unfolding queue_fixed view get_pending_operation
  fixed-AllowsCalls quiet = record {
    marks_hash = λ hash pubkey s. refl;
    marks_assertion = λ id s. refl;
    active = λ height s. refl;
    spends_gas = spends_gas;
    visits = LeavesSafe-visits x queue_fixed quiet;
  }

  pub fixed-AllowsSettings : Entries.AllowsSettings x queue_fixed
  unfolding view get_pending_operation
  fixed-AllowsSettings = record {
    pending_gas = λ p. fixes _ (λ s. refl);
    max_gas = λ n. fixes _ (λ s. refl);
  }

  pub fixed-AllowsConfig : Entries.AllowsConfig x queue_fixed
  unfolding view get_pending_operation
  fixed-AllowsConfig = record {
    pending = λ p. fixes _ (λ s. refl);
    config = λ p. fixes _ (λ s. refl);
    signal = λ p n. fixes _ (λ s. refl);
  }

  pub fixed-AllowsOwners : Entries.AllowsOwners x queue_fixed
  unfolding view get_pending_operation
  fixed-AllowsOwners = record {
    pending_transfer = λ p. fixes _ (λ s. refl);
    pending_recovery = λ p. fixes _ (λ s. refl);
    recovery = λ p. fixes _ (λ s. refl);
    owner = λ p. fixes _ (λ s. refl);
    adds = λ p. fixes _ (λ s. refl);
    drops = λ p. fixes _ (λ s. refl);
    registers = λ key p. fixes _ (λ s. refl);
    initialized = fixes _ (λ s. refl);
  }

-- A call that ends in `ok` takes one step, from a queue of which `P` holds.
pub record StepsIf {A : Type 0} (x : Setting) (P : Queue → Type 0) (m : Call x A) : Type 0 where
  pub at :
      (ch : Chain x.ext) {r : A × Chain x.ext}
      → P (view ch.safe)
      → m ch ≡ ok r
      → Step x.env (view ch.safe) (view r.1.safe)

module _ (x : Setting) (P : Queue → Type 0) {A B : Type 0} where
  -- What comes first tells `Q`.
  pub Steps-learn :
      (Q : A → Queue → Type 0) (m : Call x A) (f : A → Call x B)
      → Keeps (on_chain x queue_fixed) m
      → ((ch : Chain x.ext) (r : A × Chain x.ext)
          → P (view ch.safe)
          → m ch ≡ ok r
          → Q r.0 (view ch.safe))
      → ((a : A) → StepsIf x (Q a) (f a))
      → StepsIf x P (m >>= f)
  unfolding on_chain queue_fixed
  Steps-learn Q m f k learn kf = record {
    at = λ ch {r} p e.
        let (q, first, second) = then-ok m f ch e in
        let same = k.at ch first in
        let told = subst (Q q.0) (sym same) (learn ch q p first) in
        subst (λ v. Step x.env v (view r.1.safe)) same ((kf q.0).at q.1 told second);
  }

  pub Steps-first :
      (m : Call x A) (f : A → Call x B)
      → StepsIf x P m
      → ((a : A) → Keeps (on_chain x queue_fixed) (f a))
      → StepsIf x P (m >>= f)
  unfolding on_chain queue_fixed
  Steps-first m f k kf = record {
    at = λ ch {r} p e.
        let (q, first, second) = then-ok m f ch e in
        subst (Step x.env (view ch.safe)) (sym ((kf q.0).at q.1 second)) (k.at ch p first);
  }

module _ (x : Setting) (P : Queue → Type 0) {A B : Type 0} where
  pub Steps-later :
      (m : Call x A) (f : A → Call x B)
      → Keeps (on_chain x queue_fixed) m
      → ((a : A) → StepsIf x P (f a))
      → StepsIf x P (m >>= f)
  Steps-later m f k kf = Steps-learn x P (λ _. P) m f k (λ ch r p e. p) kf

module _ (x : Setting) (P : Queue → Type 0) {A : Type 0} where
  pub Steps-if :
      (b : Bool) (m n : Call x A) → StepsIf x P m → StepsIf x P n → StepsIf x P (if b then m else n)
  Steps-if true m n km kn = km
  Steps-if false m n km kn = kn

  pub Steps-idle : (m : Call x A) → Keeps (on_chain x queue_fixed) m → StepsIf x P m
  unfolding on_chain queue_fixed
  Steps-idle m k = record {
    at = λ ch {r} p e. subst (Step x.env (view ch.safe)) (sym (k.at ch e)) idle;
  }

pub ruleset steps_rules = (Steps-idle, Steps-first, Steps-later, Steps-if)
