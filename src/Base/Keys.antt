-- ===== src/Base/Keys.antt =====
-- Equality as an interface, texts as lists of code units, and maps as association lists: the
-- first entry of a key counts, as with a JavaScript `Map` or a Clarity data map.
use Prim.Native.Nat.{ℕ, ◌+◌, ◌≤◌}
use Prim.Native.Char.{code}
use Prim.Native.String.{String}
use mathlib.Core.Path.{◌≡◌, refl, sym, ap₂, subst, subst₂}
use mathlib.Core.Logic.{◌≢◌, ◌↔◌, inl, inr}
use mathlib.Core.Bool.{Bool, true, false, ◌&&◌}
use mathlib.Core.Option.{Option, none, some}
use mathlib.Core.List.{List, [], ◌∷◌}
use native.Mathlib.Omega.{arith}
use text.Mathlib.Text.{◌==◌ as str_eq}
use text.Mathlib.TextEquality.{eq_iff}
use pillar_wallets_xyz.Base.Tests.{nat_beq, nat_beq_iff, if◌then◌else◌, &&-true_iff, Bool-cases}

pub record Eq {κ} (K : Type κ) : Type κ where
  pub same : K → K → Bool
  pub same_iff : (k l : K) → (same k l ≡ true) ↔ (k ≡ l)

infix 50 ◌==◌
abbrev pub ◌==◌ {κ} : {K : Type κ} ⦃keys : Eq K⦄ → K → K → Bool
◌==◌ ⦃keys⦄ = keys.same

instance abbrev pub nat_eq : Eq ℕ
nat_eq = record { same = nat_beq; same_iff = nat_beq_iff }

instance abbrev pub string_eq : Eq String
string_eq = record { same = str_eq; same_iff = eq_iff }

-- A buffer: its bytes.
abbrev pub Bytes : Type 0
Bytes = List ℕ

abbrev pub bytes_beq : Bytes → Bytes → Bool
bytes_beq [] [] = true
bytes_beq [] (y ∷ ys) = false
bytes_beq (x ∷ xs) [] = false
bytes_beq (x ∷ xs) (y ∷ ys) = nat_beq x y && bytes_beq xs ys

pub bytes_beq_iff : (a b : Bytes) → (bytes_beq a b ≡ true) ↔ (a ≡ b)
bytes_beq_iff [] [] = (λ h. refl, λ h. refl)
bytes_beq_iff [] (y ∷ ys) = (λ h. cc, λ h. cc)
bytes_beq_iff (x ∷ xs) [] = (λ h. cc, λ h. cc)
bytes_beq_iff (x ∷ xs) (y ∷ ys) = (
  λ h.
      let both = (&&-true_iff (nat_beq x y) (bytes_beq xs ys)).0 h in
      ap₂ ◌∷◌ ((nat_beq_iff x y).0 both.0) ((bytes_beq_iff xs ys).0 both.1),
  λ h.
      (&&-true_iff (nat_beq x y) (bytes_beq xs ys)).1
        ((nat_beq_iff x y).1 (cc), (bytes_beq_iff xs ys).1 (cc)),
)

instance abbrev pub bytes_eq : Eq Bytes
bytes_eq = record { same = bytes_beq; same_iff = bytes_beq_iff }

-- The code units of a text.
abbrev pub codes : String → Bytes
codes String.[] = []
codes (String.◌∷◌ c s) = code c ∷ codes s

module _ {ℓ} {A : Type ℓ} ⦃e : Eq A⦄ where
  pub ==_refl : (a : A) → (a == a) ≡ true
  ==_refl a = (e.same_iff a a).1 refl

  pub ==_eq : (a b : A) → (a == b) ≡ true → a ≡ b
  ==_eq a b = (e.same_iff a b).0

  pub ==_neq : (a b : A) → (a == b) ≡ false → b ≢ a
  ==_neq a b h same =
      let yes : (a == b) ≡ true = subst (λ x. (a == x) ≡ true) (sym same) (==_refl a) in cc

module _ {ℓ κ} {K : Type ℓ} {V : Type κ} ⦃e : Eq K⦄ where
  unfoldable pub lookup : K → List (K × V) → Option V
  lookup key [] = none
  lookup key ((found, value) ∷ entries) = if found == key then some value else lookup key entries

  unfoldable pub insert : K → V → List (K × V) → List (K × V)
  insert key value [] = (key, value) ∷ []
  insert key value ((found, old) ∷ entries) =
      if found == key then (key, value) ∷ entries else (found, old) ∷ insert key value entries

  -- `(map-delete m key)`
  unfoldable pub delete : K → List (K × V) → List (K × V)
  delete key [] = []
  delete key ((found, value) ∷ entries) =
      let rest = delete key entries in if found == key then rest else (found, value) ∷ rest

module _ {ℓ κ} {K : Type ℓ} {V : Type κ} ⦃e : Eq K⦄ where
  pub lookup-insert :
      (key found : K) (value : V) (entries : List (K × V))
      → lookup found (insert key value entries)
        ≡ (if key == found then some value else lookup found entries)
  unfolding lookup insert
  lookup-insert key found value [] = refl
  lookup-insert key found value ((first, old) ∷ entries) = ground (
    arith,
    e.same_iff key found,
    e.same_iff first key,
    e.same_iff first found,
    lookup-insert key found value entries,
  )

  pub lookup-delete :
      (key found : K) (entries : List (K × V))
      → lookup found (delete key entries) ≡ (if key == found then none else lookup found entries)
  unfolding lookup delete
  lookup-delete key found [] = ground arith
  lookup-delete key found ((first, old) ∷ entries) = ground (
    arith,
    e.same_iff key found,
    e.same_iff first key,
    e.same_iff first found,
    lookup-delete key found entries,
  )

  -- The sum of a weight over the entries.
  unfoldable pub sum_by : (K → V → ℕ) → List (K × V) → ℕ
  sum_by weight [] = 0
  sum_by weight ((k, v) ∷ m) = weight k v + sum_by weight m

  -- The weight of what `insert` replaces.
  abbrev pub weight_at : (K → V → ℕ) → K → Option V → ℕ
  weight_at weight k none = 0
  weight_at weight k (some v) = weight k v

  pub sum_by-insert :
      (weight : K → V → ℕ) (k : K) (v : V) (m : List (K × V))
      → sum_by weight (insert k v m) + weight_at weight k (lookup k m)
        ≡ sum_by weight m + weight k v
  unfolding sum_by lookup insert
  sum_by-insert weight k v [] = omega arith
  sum_by-insert weight k v ((j, w) ∷ m) = elim (Bool-cases (j == k)) [
    | inl same ↦ rw (same, ==_eq j k same) (omega arith)
    | inr other ↦ rw other (omega (arith, sum_by-insert weight k v m))
  ]

  -- What an entry weighs is part of the sum.
  pub weight_at-le-sum_by :
      (weight : K → V → ℕ) (k : K) (m : List (K × V))
      → weight_at weight k (lookup k m) ≤ sum_by weight m
  unfolding sum_by lookup
  weight_at-le-sum_by weight k [] = omega arith
  weight_at-le-sum_by weight k ((j, w) ∷ m) = elim (Bool-cases (j == k)) [
    | inl same ↦ rw (same, ==_eq j k same) (omega arith)
    | inr other ↦ rw other (omega (arith, weight_at-le-sum_by weight k m))
  ]

  -- Every entry meets a predicate.
  abbrev pub AllEntries {μ} : (K → V → Type μ) → List (K × V) → Type μ
  AllEntries P [] = Unit
  AllEntries P ((k, v) ∷ m) = P k v × AllEntries P m

  pub AllEntries-mono {μ ν} :
      (P : K → V → Type μ) (Q : K → V → Type ν) (m : List (K × V))
      → ((k : K) (v : V) → P k v → Q k v)
      → AllEntries P m
      → AllEntries Q m
  AllEntries-mono P Q [] imp h = tt
  AllEntries-mono P Q ((k, v) ∷ m) imp h = (imp k v h.0, AllEntries-mono P Q m imp h.1)

  pub insert-AllEntries {μ} :
      (P : K → V → Type μ) (k : K) (v : V) (m : List (K × V))
      → P k v
      → AllEntries P m
      → AllEntries P (insert k v m)
  unfolding insert
  insert-AllEntries P k v [] p h = (p, tt)
  insert-AllEntries P k v ((j, w) ∷ m) p h = elim (Bool-cases (j == k)) [
    | inl same ↦ rw same (p, h.1)
    | inr other ↦ rw other (h.0, insert-AllEntries P k v m p h.1)
  ]

  pub lookup-AllEntries {μ} :
      (P : K → V → Type μ) (k : K) (m : List (K × V)) {v : V}
      → AllEntries P m
      → lookup k m ≡ some v
      → P k v
  unfolding lookup
  lookup-AllEntries P k [] h found = cc
  lookup-AllEntries P k ((j, w) ∷ m) {v} h found = elim (Bool-cases (j == k)) [
    | inl same ↦
        let both : some w ≡ some v = rw same at found in
        let eq : w ≡ v = cc in subst₂ P (==_eq j k same) eq h.0
    | inr other ↦ lookup-AllEntries P k m h.1 (rw other at found)
  ]
