-- ===== src/Clarity/Outcome.antt =====
-- How a Clarity call ends: `(ok v)`, `(err uN)`, or a run-time abort (an overflow, an
-- underflow, an `unwrap-panic` on `none`). The last two roll the transaction back.
use mathlib.Core.Path.{subst}
use pillar_wallets_xyz.Base.{
  ℕ, ◌+◌, ◌-◌, ◌*◌, ◌^◌, ◌≡◌, ◌<◌, ◌≤◌, refl, Bool, true, false, Option, none, some, ltb, leb,
  if◌then◌else◌, Bool-cases, inl, inr, ltb→lt, leb→le,
}

pub data Outcome {ℓ} (A : Type ℓ) : Type ℓ where
  ok : A → Outcome A
  err : ℕ → Outcome A
  abort : Outcome A

infixl 5 ◌>>=◌ ◌>>◌
abbrev pub ◌>>=◌ {ℓ κ} : {A : Type ℓ} {B : Type κ} → Outcome A → (A → Outcome B) → Outcome B
ok a >>= f = f a
err e >>= f = err e
abort >>= f = abort

abbrev pub ◌>>◌ {ℓ} : {B : Type ℓ} → Outcome (Unit {0}) → Outcome B → Outcome B
m >> k = m >>= λ _. k

-- `(asserts! test (err uN))`
abbrev pub asserts : Bool → ℕ → Outcome (Unit {0})
asserts true e = ok tt
asserts false e = err e

-- `(unwrap! o (err uN))`
abbrev pub unwrap {ℓ} : {A : Type ℓ} → Option A → ℕ → Outcome A
unwrap none e = err e
unwrap (some a) e = ok a

-- `(unwrap-panic o)`
abbrev pub unwrap_panic {ℓ} : {A : Type ℓ} → Option A → Outcome A
unwrap_panic none = abort
unwrap_panic (some a) = ok a

abbrev pub uint_limit : ℕ
uint_limit = 2 ^ 128

-- `+`, `*` and `-` on `uint` abort out of range.
unfoldable pub add_uint : ℕ → ℕ → Outcome ℕ
add_uint a b = if ltb (a + b) uint_limit then ok (a + b) else abort

unfoldable pub mul_uint : ℕ → ℕ → Outcome ℕ
mul_uint a b = if ltb (a * b) uint_limit then ok (a * b) else abort

unfoldable pub sub_uint : ℕ → ℕ → Outcome ℕ
sub_uint a b = if leb b a then ok (a - b) else abort

-- What holds of the value if the call ends in `ok`.
abbrev pub Ensures {ℓ κ} : {A : Type ℓ} → (A → Type κ) → Outcome A → Type κ
Ensures P (ok a) = P a
Ensures P (err e) = Unit
Ensures P abort = Unit

pub Ensures->>= {ℓ κ μ ν} :
    {A : Type ℓ} {B : Type κ} (P : A → Type μ) (Q : B → Type ν) (m : Outcome A) (f : A → Outcome B)
    → Ensures P m
    → ((a : A) → P a → Ensures Q (f a))
    → Ensures Q (m >>= f)
Ensures->>= P Q (ok a) f h k = k a h
Ensures->>= P Q (err e) f h k = tt
Ensures->>= P Q abort f h k = tt

pub Ensures-mono {ℓ κ μ} :
    {A : Type ℓ} (P : A → Type κ) (Q : A → Type μ) (m : Outcome A)
    → ((a : A) → P a → Q a)
    → Ensures P m
    → Ensures Q m
Ensures-mono P Q (ok a) imp h = imp a h
Ensures-mono P Q (err e) imp h = tt
Ensures-mono P Q abort imp h = tt

pub Ensures_of {ℓ κ} :
    {A : Type ℓ} (P : A → Type κ) (m : Outcome A) {a : A} → Ensures P m → m ≡ ok a → P a
Ensures_of P m h e = subst (Ensures P) e h

-- To know of an ending only that it was reached.
pub Ensures-self {ℓ} : {A : Type ℓ} (m : Outcome A) → Ensures (λ a. m ≡ ok a) m
Ensures-self (ok a) = refl
Ensures-self (err e) = tt
Ensures-self abort = tt

pub asserts-Ensures : (b : Bool) (e : ℕ) → Ensures (λ _. b ≡ true) (asserts b e)
asserts-Ensures true e = refl
asserts-Ensures false e = tt

pub unwrap-Ensures {ℓ} :
    {A : Type ℓ} (o : Option A) (e : ℕ) → Ensures (λ a. o ≡ some a) (unwrap o e)
unwrap-Ensures none e = tt
unwrap-Ensures (some a) e = refl

pub add_uint-Ensures : (a b : ℕ) → Ensures (λ n. (n ≡ a + b) × (n < uint_limit)) (add_uint a b)
unfolding add_uint
add_uint-Ensures a b = elim (Bool-cases (ltb (a + b) uint_limit)) [
  | inl fits ↦ rw fits (refl, ltb→lt (a + b) uint_limit fits)
  | inr over ↦ rw over tt
]

pub mul_uint-Ensures : (a b : ℕ) → Ensures (λ n. (n ≡ a * b) × (n < uint_limit)) (mul_uint a b)
unfolding mul_uint
mul_uint-Ensures a b = elim (Bool-cases (ltb (a * b) uint_limit)) [
  | inl fits ↦ rw fits (refl, ltb→lt (a * b) uint_limit fits)
  | inr over ↦ rw over tt
]

pub sub_uint-Ensures : (a b : ℕ) → Ensures (λ n. (n ≡ a - b) × (b ≤ a)) (sub_uint a b)
unfolding sub_uint
sub_uint-Ensures a b = elim (Bool-cases (leb b a)) [
  | inl fits ↦ rw fits (refl, leb→le b a fits)
  | inr under ↦ rw under tt
]
