-- ===== src/Safe/Reentry.antt =====
-- Calls back into juice-safe-v7.clar: what a gas station or a token that the caller names does while
-- the wallet calls it. README-v4-v14-sims.md runs such a station against `sip010-transfer`.
use mathlib.Core.Path.{subst}
use pillar_wallets_xyz.Base.{ℕ, zero, suc, Bool, true, false, ◌≡◌, refl}
use pillar_wallets_xyz.Clarity.Outcome.{Outcome, ok, err, abort}
use pillar_wallets_xyz.Clarity.Contract.Keeps.{Change, Keeps, Keeps-advance}
use pillar_wallets_xyz.Webauthn.Crypto.{Crypto}
use pillar_wallets_xyz.Safe.State.{Safe}
use pillar_wallets_xyz.Safe.External.{External, Env, Setting, Account, ChosenCall, visit}
use pillar_wallets_xyz.Safe.Entry.{Entry, exec, setting}
use pillar_wallets_xyz.Safe.Frame.{on_chain}

-- It ends, or it calls an entry point of the wallet, as any sender, and goes on with whether that
-- ended in `ok` and with what it reads of the wallet and of the other contracts.
pub data Behaviour (W : Type 0) : Type 0 where
  ends : Outcome W → Behaviour W
  calls : W → Env → Entry → (Bool → Safe → W → Behaviour W) → Behaviour W

never : {A : Type 0} {a : A} → abort ≡ ok a → ⊥
never e = absurd (cc)

abbrev pub Runner : Type 0 → Type 0
Runner W = Env → Entry → Account W → Outcome (Unit {0} × Account W)

module _ {W : Type 0} where
  -- An error of the wallet is a value that the contract may go on from; an abort ends it all.
  unfoldable pub play : Runner W → Behaviour W → Safe → Outcome (Account W)
  play run (ends (ok w)) s = ok (record { safe = s; world = w })
  play run (ends (err e)) s = err e
  play run (ends abort) s = abort
  play run (calls w env e next) s = elim (run env e (record { safe = s; world = w })) [
    | ok r ↦ play run (next true r.1.safe r.1.world) r.1.safe
    | err n ↦ play run (next false s w) s
    | abort ↦ abort
  ]

  -- What every call back keeps, the contract keeps.
  pub play-keeps :
      (R : Change Safe) (run : Runner W)
      → ((env : Env) (e : Entry) (a : Account W) (r : Unit {0} × Account W)
          → run env e a ≡ ok r
          → R.rel a.safe r.1.safe)
      → (b : Behaviour W) (s : Safe) (a : Account W) → play run b s ≡ ok a
      → R.rel s a.safe
  unfolding play
  play-keeps R run keeps (ends (ok w)) s a e =
      let same : s ≡ a.safe = cc in subst (R.rel s) same (R.none_made s)
  play-keeps R run keeps (ends (err n)) s a e = absurd (cc)
  play-keeps R run keeps (ends abort) s a e = absurd (cc)
  play-keeps R run keeps (calls w env entry next) s a e =
      split (run env entry (record { safe = s; world = w })) refl e
        (λ t v. play-keeps R run keeps (next true t v) t a)
        (λ u. play-keeps R run keeps (next false s w) s a u)
    where
      split :
          (o : Outcome (Unit {0} × Account W))
          → run env entry (record { safe = s; world = w }) ≡ o
          → elim o as (λ _. Outcome (Account W)) [
            | ok r ↦ play run (next true r.1.safe r.1.world) r.1.safe
            | err n ↦ play run (next false s w) s
            | abort ↦ abort
          ]
            ≡ ok a
          → ((t : Safe) (v : W) → play run (next true t v) t ≡ ok a → R.rel t a.safe)
          → (play run (next false s w) s ≡ ok a → R.rel s a.safe)
          → R.rel s a.safe
      split (ok r) ran e' on_ok on_err =
          R.both (keeps env entry _ r ran) (on_ok r.1.safe r.1.world e')
      split (err n) ran e' on_ok on_err = on_err e'
      split abort ran e' on_ok on_err = absurd (cc)

module _ (c : Crypto) (ext : External)
    (behaviour : ChosenCall → Account ext.World → Behaviour ext.World) where
  abbrev pub answering : (ChosenCall → Account ext.World → Outcome (Account ext.World)) → External
  answering f = record ext { chosen = f }

  -- Calls back nest at most as deep as the call stack of the chain, 64; here to any depth.
  unfoldable pub at_depth : ℕ → ChosenCall → Account ext.World → Outcome (Account ext.World)
  at_depth zero call a = abort
  at_depth (suc n) call a =
      play (λ env e. exec (setting c (answering (at_depth n)) env) e) (behaviour call a) a.safe

  -- The contracts around the wallet, of which the ones that the caller names behave so.
  abbrev pub reentrant : ℕ → External
  reentrant n = answering (at_depth n)

  abbrev pub Visits : Change Safe → ℕ → Env → Type 0
  Visits R n env =
      (call : ChosenCall)
      → Keeps (on_chain (setting c (reentrant n) env) R) (visit (setting c (reentrant n) env) call)

  -- What each entry point keeps if the visits do, the visits keep.
  pub reentrant-Visits :
      (R : Change Safe)
      → ((x : Setting)
          → ((call : ChosenCall) → Keeps (on_chain x R) (visit x call))
          → (e : Entry) → Keeps (on_chain x R) (exec x e))
      → (n : ℕ) (env : Env) → Visits R n env
  unfolding at_depth visit on_chain
  reentrant-Visits R keeps zero env call =
      Keeps-advance (at_depth zero call) (λ ch ch' e. absurd (never e))
  reentrant-Visits R keeps (suc n) env call =
      let inner = reentrant-Visits R keeps n in
      Keeps-advance _ λ ch ch' e.
        play-keeps R (λ env' e'. exec (setting c (answering (at_depth n)) env') e')
          (λ env' e' a r ran. (keeps (setting c (reentrant n) env') (inner env') e').at a ran)
          (behaviour call ch) ch.safe ch' e
