-- ===== src/Clarity/Contract/Keeps.antt =====
-- What every call that ends in `ok` does to the state, one rule for each way to build a call.
use pillar_wallets_xyz.Base.{ℕ, Bool, true, false, ◌≡◌, refl, ap, if◌then◌else◌}
use pillar_wallets_xyz.Clarity.Outcome.{Outcome, ok, err, abort}
use pillar_wallets_xyz.Clarity.Contract.{
  Contract, lift, gets, modify, advance, require, ◌>>=◌, then-ok, require-ok, panicking,
  panicking-ok,
}

-- A relation between the states before and after, closed under running one call after another.
pub record Change (S : Type 0) : Type 1 where
  pub rel : S → S → Type 0
  pub none_made : (s : S) → rel s s
  pub both : {s t u : S} → rel s t → rel t u → rel s u

pub record Keeps {S A : Type 0} (R : Change S) (m : Contract S A) : Type 0 where
  pub at : (s : S) {r : A × S} → m s ≡ ok r → R.rel s r.1

module _ {S A : Type 0} {R : Change S} where
  pub Keeps-lift : (o : Outcome A) → Keeps R (lift o)
  unfolding lift
  Keeps-lift (ok a) = record { at = λ s {r} e. let same : r.1 ≡ s = cc in rw same (R.none_made s) }
  Keeps-lift (err n) = record { at = λ s e. absurd (cc) }
  Keeps-lift abort = record { at = λ s e. absurd (cc) }

  pub Keeps-gets : (f : S → A) → Keeps R (gets f)
  unfolding gets
  Keeps-gets f = record { at = λ s {r} e. let same : r.1 ≡ s = cc in rw same (R.none_made s) }

  pub Keeps-if :
      (b : Bool) (m n : Contract S A) → Keeps R m → Keeps R n → Keeps R (if b then m else n)
  Keeps-if true m n km kn = km
  Keeps-if false m n km kn = kn

  pub Keeps-panicking : (m : Contract S A) → Keeps R m → Keeps R (panicking m)
  Keeps-panicking m k = record { at = λ s e. k.at s (panicking-ok m s e) }

module _ {S : Type 0} {R : Change S} where
  pub Keeps-require : (test : Bool) (e : ℕ) → Keeps R (require test e)
  unfolding require
  Keeps-require test e = Keeps-lift _

  pub Keeps-modify : (f : S → S) → ((s : S) → R.rel s (f s)) → Keeps R (modify f)
  unfolding modify
  Keeps-modify f k = record { at = λ s {r} e. let same : r.1 ≡ f s = cc in rw same (k s) }

  pub Keeps-advance :
      (f : S → Outcome S) → ((s s' : S) → f s ≡ ok s' → R.rel s s') → Keeps R (advance f)
  unfolding advance
  Keeps-advance f k = record { at = λ s e. from (f s) refl e }
    where
      from :
          {s : S} (o : Outcome S) {r : Unit {0} × S}
          → f s ≡ o
          → elim o as (λ _. Outcome (Unit {0} × S)) [
            | ok s' ↦ ok (tt, s')
            | err n ↦ err n
            | abort ↦ abort
          ]
            ≡ ok r
          → R.rel s r.1
      from {s} (ok s') {r} ran e = let same : r.1 ≡ s' = cc in rw same (k s s' ran)
      from (err n) ran e = absurd (cc)
      from abort ran e = absurd (cc)

module _ {S A B : Type 0} {R : Change S} where
  pub Keeps-bind :
      (m : Contract S A) (f : A → Contract S B)
      → Keeps R m
      → ((a : A) → Keeps R (f a))
      → Keeps R (m >>= f)
  Keeps-bind m f km kf = record {
    at = λ s e.
        let (q, first, second) = then-ok m f s e in R.both (km.at s first) ((kf q.0).at q.1 second);
  }

module _ {S A : Type 0} {R : Change S} where
  -- The rest may use what the test has shown.
  pub Keeps-require_bind :
      (test : Bool) (e : ℕ) (m : Contract S A)
      → (test ≡ true → Keeps R m)
      → Keeps R (require test e >>= λ _. m)
  Keeps-require_bind test e m k = record {
    at = λ s {r} h.
        let (q, first, second) = then-ok (require test e) (λ _. m) s h in
        let (passed, same) = require-ok test e s first in
        let state : q.1 ≡ s = ap (λ p. p.1) same in (k passed).at s {r = r} (rw state at second);
  }

pub ruleset keeps_rules =
    (Keeps-lift, Keeps-gets, Keeps-require, Keeps-if, Keeps-bind, Keeps-panicking)
