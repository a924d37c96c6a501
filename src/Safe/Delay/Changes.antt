-- ===== src/Safe/Delay/Changes.antt =====
-- The signalled change of the limits of juice-safe-v7.clar, and its confirmation.
use mathlib.Core.Path.{subst, subst₂}
use pillar_wallets_xyz.Base.{
  arith, ℕ, String, not, Option, none, some, ◌≡◌, ◌≢◌, refl, sym, ap, ◌∙◌, leb, leb→le, ◌==◌,
  nat_eq,
}
use pillar_wallets_xyz.Clarity.Outcome.{Outcome, ok}
use pillar_wallets_xyz.Clarity.Contract.{◌>>=◌, then-ok, require, require-ok}
use pillar_wallets_xyz.Clarity.Contract.Keeps.{Change, Keeps, Keeps-bind}
use pillar_wallets_xyz.Safe.State.{Safe, Config, PendingConfig, no_config}
use pillar_wallets_xyz.Safe.State.Code
use pillar_wallets_xyz.Safe.External.{Setting, Chain, read, update, read-ok, update-ok, outside}
use pillar_wallets_xyz.Safe.Signature.{SigAuth, is_authorized}
use pillar_wallets_xyz.Safe.Operations.{update_activity, by_passkey}
use pillar_wallets_xyz.Safe.Config.{
  set_pending_config, set_config, signal_config, signal_config_change, set_wallet_config,
  signaled_at, delay_passed,
}
use pillar_wallets_xyz.Safe.Frame.{on_chain, Keeps-update, Keeps-outside}
use pillar_wallets_xyz.Safe.Delay.{InRange, Ready, HasRange, in_range}

-- The limits and the signalled ones.
record SameConfig (s s' : Safe) : Type 0 where
  config : s'.wallet_config ≡ s.wallet_config
  pending : s'.pending_config ≡ s.pending_config

config_fixed : Change Safe
config_fixed = record {
  rel = SameConfig;
  none_made = λ s. record { config = refl; pending = refl };
  both = λ a b. record { config = b.config ∙ a.config; pending = b.pending ∙ a.pending };
}

module _ (x : Setting) where
  ending-Keeps :
      (f : x.ext.World → Outcome x.ext.World)
      → Keeps (on_chain x config_fixed) (update_activity x >>= λ _. outside x f)
  ending-Keeps f = Keeps-bind _ _ noted (λ _. Keeps-outside x config_fixed f)
    where
      noted : Keeps (on_chain x config_fixed) (update_activity x)
      noted =
          unfold update_activity config_fixed in
          (Keeps-update x config_fixed _ (λ s. record { config = refl; pending = refl }))

  -- `HasRange` reads only these two.
  HasRange-same : (s s' : Safe) → SameConfig s s' → HasRange s → HasRange s'
  HasRange-same s s' same h =
      subst₂ (λ c p. InRange c.cooldown_period × Ready c.config_signaled_at p) (sym same.config)
        (sym same.pending) h

  pub signal_config_change-Keeps :
      (a b cooldown : ℕ) → Keeps (on_chain x in_range) (signal_config_change x a b cooldown)
  unfolding signal_config_change on_chain in_range config_fixed
  signal_config_change-Keeps a b cooldown = record {
    at = λ ch {r} e h.
        let new : PendingConfig = record {
          stx_threshold = a;
          sbtc_threshold = b;
          cooldown_period = cooldown;
        } in
        let (q1, e1, rest1) = then-ok (read x (λ s. s.wallet_config)) _ ch e in
        let (q2, e2, rest2) = then-ok (is_authorized x none) _ q1.1 rest1 in
        let (q3, e3, rest3) = then-ok (require (leb Code.min_cooldown cooldown) _) _ q2.1 rest2 in
        let (q4, e4, rest4) =
          then-ok (require (leb cooldown Code.max_config_cooldown) _) _ q3.1 rest3 in
        let (q5, e5, rest5) = then-ok (update x (set_pending_config new)) _ q4.1 rest4 in
        let (q6, e6, rest6) =
          then-ok (update x (signal_config q1.0 x.env.burn_block_height)) _ q5.1 rest5 in
        let low = (require-ok _ _ q2.1 e3).0 in
        let high = (require-ok _ _ q3.1 e4).0 in
        let old : q1.0 ≡ ch.safe.wallet_config =
          ap (λ q. q.0) (read-ok x (λ s. s.wallet_config) ch e1) in
        let signalled : q6.1.safe ≡ signal_config q1.0 x.env.burn_block_height q5.1.safe =
          ap (λ q. q.1.safe) (update-ok x (signal_config q1.0 x.env.burn_block_height) q5.1 e6) in
        let proposed : q5.1.safe ≡ set_pending_config new q4.1.safe =
          ap (λ q. q.1.safe) (update-ok x (set_pending_config new) q4.1 e5) in
        let range : InRange q1.0.cooldown_period =
          subst (λ c. InRange c.cooldown_period) (sym old) h.0 in
        let at6 : HasRange q6.1.safe =
          subst HasRange
            (sym (signalled ∙ ap (signal_config q1.0 x.env.burn_block_height) proposed))
            (range, (leb→le _ _ low, leb→le _ _ high)) in
        HasRange-same q6.1.safe r.1.safe ((ending-Keeps _).at q6.1 rest6) at6;
  }

  -- A change that was signalled was signalled in range.
  Ready-InRange :
      (c : Config) (p : PendingConfig)
      → signaled_at c ≢ 0
      → Ready c.config_signaled_at p
      → InRange p.cooldown_period
  unfolding signaled_at
  Ready-InRange c p since ready = split c.config_signaled_at since ready
    where
      split :
          (o : Option ℕ)
          → elim o as (λ _. ℕ) [ none ↦ 0 | some height ↦ height ] ≢ 0
          → Ready o p
          → InRange p.cooldown_period
      split none since' ready' = absurd (since' refl)
      split (some height) since' ready' = ready'

  delay_passed-ok :
      (since effective : ℕ) (ch : Chain x.ext) {r : Unit {0} × Chain x.ext}
      → delay_passed x since effective ch ≡ ok r
      → since ≢ 0
  unfolding delay_passed
  delay_passed-ok since effective ch e =
      let (q, first, rest) = then-ok (require (not (since == 0)) _) _ ch e in
      let tested = (require-ok _ _ ch first).0 in λ zero. ground arith

  pub set_wallet_config-Keeps :
      (sig : SigAuth) (gas : Option String)
      → Keeps (on_chain x in_range) (set_wallet_config x sig gas)
  unfolding set_wallet_config on_chain in_range config_fixed
  set_wallet_config-Keeps sig gas = record {
    at = λ ch {r} e h.
        let (q1, e1, rest1) = then-ok (read x (λ s. s.wallet_config)) _ ch e in
        let (q2, e2, rest2) = then-ok (read x (λ s. s.pending_config)) _ q1.1 rest1 in
        let (q3, e3, rest3) = then-ok (by_passkey x _ sig gas) _ q2.1 rest2 in
        let (q4, e4, rest4) = then-ok (delay_passed x (signaled_at q1.0) _) _ q3.1 rest3 in
        let new : Config = record {
          stx_threshold = q2.0.stx_threshold;
          sbtc_threshold = q2.0.sbtc_threshold;
          cooldown_period = q2.0.cooldown_period;
          config_signaled_at = none;
        } in
        let (q5, e5, rest5) = then-ok (update x (set_config new)) _ q4.1 rest4 in
        let (q6, e6, rest6) = then-ok (update x (set_pending_config no_config)) _ q5.1 rest5 in
        let old : q1.0 ≡ ch.safe.wallet_config =
          ap (λ q. q.0) (read-ok x (λ s. s.wallet_config) ch e1) in
        let wanted : q2.0 ≡ ch.safe.pending_config =
          ap (λ q. q.0) (read-ok x (λ s. s.pending_config) q1.1 e2)
          ∙ ap (λ q. q.1.safe.pending_config) (read-ok x (λ s. s.wallet_config) ch e1) in
        let ready : Ready q1.0.config_signaled_at q2.0 =
          subst₂ (λ c p. Ready c.config_signaled_at p) (sym old) (sym wanted) h.1 in
        let range = Ready-InRange q1.0 q2.0 (delay_passed-ok _ _ q3.1 e4) ready in
        let written : q6.1.safe ≡ set_pending_config no_config (set_config new q4.1.safe) =
          ap (λ q. q.1.safe) (update-ok x (set_pending_config no_config) q5.1 e6)
          ∙ ap (λ q. set_pending_config no_config q.1.safe)
              (update-ok x (set_config new) q4.1 e5) in
        let at6 : HasRange q6.1.safe = subst HasRange (sym written) (range, tt) in
        HasRange-same q6.1.safe r.1.safe ((ending-Keeps _).at q6.1 rest6) at6;
  }
