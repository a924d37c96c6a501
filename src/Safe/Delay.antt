-- ===== src/Safe/Delay.antt =====
-- The delay of juice-safe-v7.clar stays between one day and four weeks of Bitcoin blocks.
pub mod Changes
pub mod Run
use pillar_wallets_xyz.Base.{
  ℕ, ◌≤◌, String, true, Option, none, some, Bytes, ◌≡◌, leb, leb→le, nat_eq,
}
use pillar_wallets_xyz.Clarity.Contract.Keeps.{
  Change, Keeps, Keeps-bind, Keeps-require, Keeps-require_bind,
}
use pillar_wallets_xyz.Safe.State.{Safe, PendingConfig, Spent}
use pillar_wallets_xyz.Safe.State.Code
use pillar_wallets_xyz.Safe.External.{Setting, update, visit, ChosenCall}
use pillar_wallets_xyz.Safe.Spending.{set_spent, add_spent_gas, add_spent_stx, add_spent_sbtc}
use pillar_wallets_xyz.Safe.Config.{set_config}
use pillar_wallets_xyz.Safe.Ownership.{onboard}
use pillar_wallets_xyz.Safe.Frame.{
  on_chain, AllowsCalls, frame_rules, Keeps-update, Keeps-read, update_activity-Keeps,
}
use pillar_wallets_xyz.Safe.Frame.Entries
use pillar_wallets_xyz.Safe.Frame.Operations

abbrev pub InRange : ℕ → Type 0
InRange cooldown = (144 ≤ cooldown) × (cooldown ≤ 4032)

-- What is signalled is in range.
abbrev pub Ready : Option ℕ → PendingConfig → Type 0
Ready none p = Unit {0}
Ready (some height) p = InRange p.cooldown_period

abbrev pub HasRange : Safe → Type 0
HasRange s =
    InRange s.wallet_config.cooldown_period
    × Ready s.wallet_config.config_signaled_at s.pending_config

pub in_range : Change Safe
in_range = record {
  rel = λ s s'. HasRange s → HasRange s';
  none_made = λ s h. h;
  both = λ first second h. second (first h);
}

module _ (x : Setting)
    (visits : (call : ChosenCall) → Keeps (on_chain x in_range) (visit x call)) where
  set_spent-Keeps : (spent : Spent) → Keeps (on_chain x in_range) (update x (set_spent spent))
  unfolding in_range
  set_spent-Keeps spent = Keeps-update x in_range _ (λ s h. h)

  spends_gas : (n : ℕ) → Keeps (on_chain x in_range) (add_spent_gas x n)
  unfolding add_spent_gas
  spends_gas n = search (frame_rules, set_spent-Keeps) depth 20

  spends_stx : (n : ℕ) → Keeps (on_chain x in_range) (add_spent_stx x n)
  unfolding add_spent_stx
  spends_stx n = search (frame_rules, set_spent-Keeps) depth 20

  spends_sbtc : (n : ℕ) → Keeps (on_chain x in_range) (add_spent_sbtc x n)
  unfolding add_spent_sbtc
  spends_sbtc n = search (frame_rules, set_spent-Keeps) depth 20

  pub calls : AllowsCalls x in_range
  unfolding in_range
  calls = record {
    marks_hash = λ hash pubkey s h. h;
    marks_assertion = λ id s h. h;
    active = λ height s h. h;
    spends_gas = spends_gas;
    visits = visits;
  }

  pub settings : Entries.AllowsSettings x in_range
  unfolding in_range
  settings = record {
    pending_gas = λ p. Keeps-update x in_range _ (λ s h. h);
    max_gas = λ n. Keeps-update x in_range _ (λ s h. h);
  }

  pub owners : Entries.AllowsOwners x in_range
  unfolding in_range
  owners = record {
    pending_transfer = λ p. Keeps-update x in_range _ (λ s h. h);
    pending_recovery = λ p. Keeps-update x in_range _ (λ s h. h);
    recovery = λ p. Keeps-update x in_range _ (λ s h. h);
    owner = λ p. Keeps-update x in_range _ (λ s h. h);
    adds = λ p. Keeps-update x in_range _ (λ s h. h);
    drops = λ p. Keeps-update x in_range _ (λ s h. h);
    registers = λ key p. Keeps-update x in_range _ (λ s h. h);
    initialized = Keeps-update x in_range _ (λ s h. h);
  }

  pub operations : Operations.AllowsOperations x in_range
  unfolding in_range
  operations = record {
    executes = λ id op. Keeps-update x in_range _ (λ s h. h);
    vetoes = λ id op. Keeps-update x in_range _ (λ s h. h);
  }

  pub spending : Entries.AllowsSpending x in_range
  spending = record { stx = spends_stx; sbtc = spends_sbtc }

  pub queue : Entries.AllowsQueue x in_range
  unfolding in_range
  queue = record {
    creates = Operations.create_pending_operation-Keeps x in_range (record {
      sets = λ id op. Keeps-update x in_range _ (λ s h. h);
      counts = λ n. Keeps-update x in_range _ (λ s h. h);
    });
  }

  -- A configuration that passed both tests.
  tested_config :
      (a b cooldown : ℕ)
      → leb Code.min_cooldown cooldown ≡ true
      → leb cooldown Code.max_config_cooldown ≡ true
      → Keeps (on_chain x in_range) (
          update x (
            set_config (record {
              stx_threshold = a;
              sbtc_threshold = b;
              cooldown_period = cooldown;
              config_signaled_at = none;
            })))
  unfolding in_range
  tested_config a b cooldown low high =
      Keeps-update x in_range _ (λ s h. ((leb→le _ _ low, leb→le _ _ high), tt))

  pub onboard-Keeps :
      (key : Bytes) (owner recovery : String) (a b cooldown : ℕ)
      → Keeps (on_chain x in_range) (onboard x key owner recovery a b cooldown)
  unfolding onboard
  onboard-Keeps key owner recovery a b cooldown = Keeps-bind _ _ (Keeps-require _ _) λ _.
      Keeps-bind _ _ (Keeps-read x in_range _) λ _. Keeps-bind _ _ (Keeps-require _ _) λ _.
        Keeps-bind _ _ (owners.registers key owner) λ _. Keeps-bind _ _ (owners.drops _) λ _.
          Keeps-bind _ _ (Keeps-require _ _) λ _. Keeps-bind _ _ (owners.adds owner) λ _.
            Keeps-bind _ _ (owners.owner owner) λ _. Keeps-bind _ _ (Keeps-require _ _) λ _.
              Keeps-bind _ _ (Keeps-require _ _) λ _. Keeps-require_bind _ _ _ λ low.
                Keeps-require_bind _ _ _ λ high. Keeps-bind _ _ (owners.recovery recovery) λ _.
                  Keeps-bind _ _ (tested_config a b cooldown low high) λ _.
                    Keeps-bind _ _ owners.initialized λ _.
                      Keeps-bind _ _ (update_activity-Keeps x in_range calls)
                        λ _. Entries.announce-Keeps x in_range calls key owner recovery a b cooldown
