-- ===== src/Base/Result.antt =====
-- A JavaScript call that may throw.
use mathlib.Core.Path.{◌≡◌, subst}

pub data Result {ℓ κ} (E : Type ℓ) (A : Type κ) : Type (ℓ ⊔ κ) where
  returned : A → Result E A
  thrown : E → Result E A

infixl 5 ◌>>=◌ ◌>>◌
abbrev pub ◌>>=◌ {ℓ κ ι} :
    {E : Type ℓ} {A : Type κ} {B : Type ι} → Result E A → (A → Result E B) → Result E B
returned a >>= f = f a
thrown e >>= f = thrown e

abbrev pub ◌>>◌ {ℓ ι} : {E : Type ℓ} {B : Type ι} → Result E (Unit {0}) → Result E B → Result E B
m >> k = m >>= λ _. k

-- What holds of the value if the call returns.
abbrev pub Ensures {ℓ κ ι} : {E : Type ℓ} {A : Type κ} → (A → Type ι) → Result E A → Type ι
Ensures P (returned a) = P a
Ensures P (thrown e) = Unit

pub Ensures->>= {ℓ κ ι μ ν} :
    {E : Type ℓ} {A : Type κ} {B : Type ι} (P : A → Type μ) (Q : B → Type ν) (m : Result E A)
    (f : A → Result E B)
    → Ensures P m
    → ((a : A) → P a → Ensures Q (f a))
    → Ensures Q (m >>= f)
Ensures->>= P Q (returned a) f h k = k a h
Ensures->>= P Q (thrown e) f h k = tt

pub Ensures_of {ℓ κ ι} :
    {E : Type ℓ} {A : Type κ} (P : A → Type ι) (m : Result E A) {a : A}
    → Ensures P m
    → m ≡ returned a
    → P a
Ensures_of P m h e = subst (Ensures P) e h

pub Ensures-mono {ℓ κ ι μ} :
    {E : Type ℓ} {A : Type κ} (P : A → Type ι) (Q : A → Type μ) (m : Result E A)
    → ((a : A) → P a → Q a)
    → Ensures P m
    → Ensures Q m
Ensures-mono P Q (returned a) imp h = imp a h
Ensures-mono P Q (thrown e) imp h = tt
