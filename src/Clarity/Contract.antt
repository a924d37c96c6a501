-- ===== src/Clarity/Contract.antt =====
-- A call that reads and changes the chain: state passing over `Outcome`. An error or an abort
-- leaves no state behind, as Clarity rolls a failed call back.
pub mod Keeps
use pillar_wallets_xyz.Base.{ℕ, Bool, true, false, ◌≡◌, refl, ap, ◌∙◌}
use pillar_wallets_xyz.Clarity.Outcome.{Outcome, ok, err, abort, asserts}

abbrev pub Contract : Type 0 → Type 0 → Type 0
Contract S A = S → Outcome (A × S)

module _ {S A : Type 0} where
  unfoldable pub lift : Outcome A → Contract S A
  lift (ok a) s = ok (a, s)
  lift (err e) s = err e
  lift abort s = abort

  unfoldable pub gets : (S → A) → Contract S A
  gets f s = ok (f s, s)

  -- `(unwrap-panic (f ...))`: an error of the call becomes a panic.
  unfoldable pub panicking : Contract S A → Contract S A
  panicking m s = elim (m s) [ ok r ↦ ok r | err e ↦ abort | abort ↦ abort ]

module _ {S : Type 0} where
  unfoldable pub modify : (S → S) → Contract S (Unit {0})
  modify f s = ok (tt, f s)

  -- A step that may fail and answers nothing but the new state.
  unfoldable pub advance : (S → Outcome S) → Contract S (Unit {0})
  advance f s = elim (f s) [ ok s' ↦ ok (tt, s') | err e ↦ err e | abort ↦ abort ]

  unfoldable pub require : Bool → ℕ → Contract S (Unit {0})
  unfolding lift
  require test e = lift (asserts test e)

module _ {S A B : Type 0} where
  abbrev pub continue : Outcome (A × S) → (A → Contract S B) → Outcome (B × S)
  continue (ok (a, s)) f = f a s
  continue (err e) f = err e
  continue abort f = abort

  infixl 5 ◌>>=◌ ◌>>◌
  unfoldable pub ◌>>=◌ : Contract S A → (A → Contract S B) → Contract S B
  unfolding lift gets modify advance require
  ◌>>=◌ m f s = continue (m s) f

  abbrev pub ◌>>◌ : Contract S A → Contract S B → Contract S B
  m >> n = m >>= λ _. n

module _ {S A B : Type 0} where
  -- A call that ends in `ok` hands on to the next.
  pub then-runs :
      (m : Contract S A) (f : A → Contract S B) (s : S) {q : A × S}
      → m s ≡ ok q
      → (m >>= f) s ≡ f q.0 q.1
  unfolding ◌>>=◌
  then-runs m f s e = ap (λ o. continue o f) e

  -- What a chain of calls that ends in `ok` has passed through.
  pub then-ok :
      (m : Contract S A) (f : A → Contract S B) (s : S) {r : B × S}
      → (m >>= f) s ≡ ok r
      → (q : A × S) × (m s ≡ ok q) × (f q.0 q.1 ≡ ok r)
  unfolding ◌>>=◌
  then-ok m f s {r} e = split (m s) refl e
    where
      split :
          (o : Outcome (A × S))
          → m s ≡ o
          → continue o f ≡ ok r
          → (q : A × S) × (m s ≡ ok q) × (f q.0 q.1 ≡ ok r)
      split (ok q) ran e' = (q, ran, e')
      split (err n) ran e' = cc
      split abort ran e' = cc

module _ {S : Type 0} where
  pub require-ok :
      (test : Bool) (e : ℕ) (s : S) {r : Unit {0} × S}
      → require test e s ≡ ok r
      → (test ≡ true) × (r ≡ (tt, s))
  unfolding require lift
  require-ok true e s h = (refl, cc)
  require-ok false e s h = cc

module _ {S A : Type 0} where
  pub panicking-ok : (m : Contract S A) (s : S) {r : A × S} → panicking m s ≡ ok r → m s ≡ ok r
  unfolding panicking
  panicking-ok m s {r} e = split (m s) refl e
    where
      split :
          (o : Outcome (A × S))
          → m s ≡ o
          → elim o as (λ _. Outcome (A × S)) [ ok r' ↦ ok r' | err n ↦ abort | abort ↦ abort ]
            ≡ ok r
          → m s ≡ ok r
      split (ok r') ran e' = ran ∙ e'
      split (err n) ran e' = absurd (cc)
      split abort ran e' = absurd (cc)
