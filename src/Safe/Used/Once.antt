-- ===== src/Safe/Used/Once.antt =====
-- One passkey assertion authorises one call of juice-safe-v7.clar, over any run of transactions and
-- whatever the contracts that the caller names do.
use pillar_wallets_xyz.Base.{ℕ, true, Bytes, ◌≡◌, refl}
use pillar_wallets_xyz.Clarity.Outcome.{Outcome, ok, err, abort}
use pillar_wallets_xyz.Clarity.Contract.Keeps.{Keeps}
use pillar_wallets_xyz.Webauthn.Crypto.{Crypto}
use pillar_wallets_xyz.Safe.State.{Safe}
use pillar_wallets_xyz.Safe.External.{External, Env, Chain, ChosenCall, visit}
use pillar_wallets_xyz.Safe.Signature.{is_assertion_used}
use pillar_wallets_xyz.Safe.Entry.{Entry}
use pillar_wallets_xyz.Safe.Frame.{on_chain}
use pillar_wallets_xyz.Safe.Reentry.{Behaviour, reentrant, reentrant-Visits}
use pillar_wallets_xyz.Safe.Used.{recorded, exec-recorded}

abbrev pub IsUsed : Bytes → Safe → Type 0
IsUsed id s = is_assertion_used id s ≡ true

-- The contracts that the caller names forget no assertion where they are called with `id` recorded.
-- Where it is not, they may do anything.
pub record KeepsFrom (ext : External) (id : Bytes) : Type 0 where
  pub keeps :
      (call : ChosenCall) (a b : Chain ext) (k : Bytes)
      → IsUsed id a.safe
      → ext.chosen call a ≡ ok b
      → IsUsed k a.safe
      → IsUsed k b.safe

module _ (c : Crypto) (ext : External) where
  -- Contracts that only call the wallet back forget no assertion, at any depth of calls.
  pub reentrant-KeepsFrom :
      (behaviour : ChosenCall → Chain ext → Behaviour ext.World) (n : ℕ) (env : Env) (id : Bytes)
      → KeepsFrom (reentrant c ext behaviour n) id
  unfolding visit on_chain recorded
  reentrant-KeepsFrom behaviour n env id = record {
    keeps = λ call a b k used done h.
        (reentrant-Visits c ext behaviour (recorded id) (λ x v e. exec-recorded x id v e) n env
            call).at
          a (answered a b done) used k h;
  }
    where
      answered :
          {o : Outcome (Chain ext)} (a b : Chain ext)
          → o ≡ ok b
          → elim o as (λ _. Outcome (Unit {0} × Chain ext)) [
            | ok s' ↦ ok (tt, s')
            | err n' ↦ err n'
            | abort ↦ abort
          ]
            ≡ ok (tt, b)
      answered a b h = rw h refl
