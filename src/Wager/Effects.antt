-- ===== src/Wager/Effects.antt =====
-- What the helpers and the entry points of game-wager-v2.clar have checked and changed when they
-- end in `ok`.
use mathlib.Core.Path.{subst, sym}
use pillar_wallets_xyz.Webauthn.Verifier.{
  get_rp_id_hash, is_user_verified, verify_webauthn_signature,
}
use pillar_wallets_xyz.Base.{
  ◌*◌, ◌/◌, ℕ, ◌+◌, ◌-◌, ◌≤◌, ◌≡◌, refl, String, Bool, true, false, not, none, some, Option, Bytes,
  leb, bytes_beq, insert, nat_eq, string_eq, bytes_eq, ◌||◌,
}
use pillar_wallets_xyz.Clarity.Outcome.{
  Outcome, ok, err, abort, ◌>>=◌, ◌>>◌, asserts, unwrap, add_uint, mul_uint, sub_uint,
  add_uint-Ensures, mul_uint-Ensures, sub_uint-Ensures, Ensures_of,
}
use pillar_wallets_xyz.Webauthn.Crypto.{Crypto}
use pillar_wallets_xyz.Wager.State.{
  State, Game, get_balance, get_accumulated_fees, is_signature_used, key_eq,
}
use pillar_wallets_xyz.Wager.State.Code
use pillar_wallets_xyz.Wager.Signature.{SigAuth, verify_signature, consume_signature}
use pillar_wallets_xyz.Wager.Escrow.{credit_balance, debit_balance, add_fees, fee_of}

-- What a chain that ends in `ok` has passed.
pub bind-ok {ℓ κ} :
    {A : Type ℓ} {B : Type κ} (m : Outcome A) (f : A → Outcome B) {b : B}
    → m >>= f ≡ ok b
    → (a : A) × (m ≡ ok a) × (f a ≡ ok b)
bind-ok (ok a) f e = (a, refl, e)
bind-ok (err n) f e = cc
bind-ok abort f e = cc

pub ok_inj {ℓ} : {A : Type ℓ} {a b : A} → ok a ≡ ok b → a ≡ b
ok_inj e = cc

pub asserts-ok {ℓ} :
    {B : Type ℓ} (test : Bool) (n : ℕ) (k : Outcome B) {b : B}
    → asserts test n >> k ≡ ok b
    → (test ≡ true) × (k ≡ ok b)
asserts-ok true n k e = (refl, e)
asserts-ok false n k e = cc

pub unwrap-ok {ℓ κ} :
    {A : Type ℓ} {B : Type κ} (o : Option A) (n : ℕ) (f : A → Outcome B) {b : B}
    → unwrap o n >>= f ≡ ok b
    → (a : A) × (o ≡ some a) × (f a ≡ ok b)
unwrap-ok none n f e = cc
unwrap-ok (some a) n f e = (a, refl, e)

abbrev pub set_balance : Bytes → String → ℕ → State → State
set_balance pubkey token n s = record s {
  balances = insert (record { pubkey = pubkey; token = token }) n s.balances;
}

abbrev pub set_fees : String → ℕ → State → State
set_fees token n s = record s { accumulated_fees = insert token n s.accumulated_fees }

abbrev pub mark_used : Bytes → Bytes → State → State
mark_used hash pubkey s = record s { used_signatures = insert hash pubkey s.used_signatures }

abbrev pub set_game : ℕ → Game → State → State
set_game id game s = record s { games = insert id game s.games }

abbrev pub credited : Bytes → String → ℕ → State → State
credited pubkey token n s = set_balance pubkey token (get_balance pubkey token s + n) s

abbrev pub debited : Bytes → String → ℕ → State → State
debited pubkey token n s = set_balance pubkey token (get_balance pubkey token s - n) s

abbrev pub charged : String → ℕ → State → State
charged token n s = set_fees token (get_accumulated_fees token s + n) s

pub add_uint-ok : (a b : ℕ) {n : ℕ} → add_uint a b ≡ ok n → n ≡ a + b
add_uint-ok a b e = (Ensures_of _ (add_uint a b) (add_uint-Ensures a b) e).0

pub mul_uint-ok : (a b : ℕ) {n : ℕ} → mul_uint a b ≡ ok n → n ≡ a * b
mul_uint-ok a b e = (Ensures_of _ (mul_uint a b) (mul_uint-Ensures a b) e).0

pub sub_uint-ok : (a b : ℕ) {n : ℕ} → sub_uint a b ≡ ok n → (n ≡ a - b) × (b ≤ a)
sub_uint-ok a b e = Ensures_of _ (sub_uint a b) (sub_uint-Ensures a b) e

pub credit_balance-ok :
    (pubkey : Bytes) (token : String) (n : ℕ) (s : State) {s' : State}
    → credit_balance pubkey token n s ≡ ok s'
    → s' ≡ credited pubkey token n s
unfolding credit_balance
credit_balance-ok pubkey token n s {s'} e =
    let (total, added, last) = bind-ok (add_uint (get_balance pubkey token s) n) _ e in
    let eq = add_uint-ok _ n added in cc

pub debit_balance-ok :
    (pubkey : Bytes) (token : String) (n : ℕ) (s : State) {s' : State}
    → debit_balance pubkey token n s ≡ ok s'
    → (n ≤ get_balance pubkey token s) × (s' ≡ debited pubkey token n s)
unfolding debit_balance
debit_balance-ok pubkey token n s {s'} e =
    let (enough, e1) = asserts-ok (leb n (get_balance pubkey token s)) _ _ e in
    let (rest, taken, last) = bind-ok (sub_uint (get_balance pubkey token s) n) _ e1 in
    let (eq, le) = sub_uint-ok _ n taken in (le, cc)

pub add_fees-ok :
    (token : String) (n : ℕ) (s : State) {s' : State}
    → add_fees token n s ≡ ok s'
    → s' ≡ charged token n s
unfolding add_fees
add_fees-ok token n s {s'} e =
    let (total, added, last) = bind-ok (add_uint (get_accumulated_fees token s) n) _ e in
    let eq = add_uint-ok _ n added in cc

pub fee_of-ok :
    (amount rate : ℕ) {fee : ℕ} → fee_of amount rate ≡ ok fee → fee ≡ amount * rate / 10000
unfolding fee_of
fee_of-ok amount rate {fee} e =
    let (product, multiplied, last) = bind-ok (mul_uint amount rate) _ e in
    let eq = mul_uint-ok amount rate multiplied in cc

pub not-false : (b : Bool) → not b ≡ true → b ≡ false
not-false true h = cc
not-false false h = refl

module _ (c : Crypto) where
  -- It never answers `(ok false)`.
  verify_signature-true :
      (hash pubkey : Bytes) (sig : SigAuth) {b : Bool}
      → verify_signature c hash pubkey sig ≡ ok b
      → verify_signature c hash pubkey sig ≡ ok true
  unfolding verify_signature
  verify_signature-true hash pubkey sig {b} e =
      let (id, found, e1) = unwrap-ok (get_rp_id_hash sig.authenticator_data) _ _ e in
      let (known, e2) =
        asserts-ok (bytes_beq id Code.rp_id_hash_fakfun_com || bytes_beq id Code.rp_id_hash_fak_fun)
          _ _ e1 in
      let (seen, e3) = asserts-ok (is_user_verified sig.authenticator_data) _ _ e2 in
      let (v, checked, e4) =
        bind-ok
          (verify_webauthn_signature c pubkey hash sig.authenticator_data sig.client_data_prefix
            sig.client_data_suffix sig.signature)
          _ e3 in
      let (valid, last) = asserts-ok v _ _ e4 in
      let eq : true ≡ b = cc in subst (λ b'. verify_signature c hash pubkey sig ≡ ok b') (sym eq) e

  pub consume_signature-ok :
      (hash pubkey : Bytes) (sig : SigAuth) (s : State) {s' : State}
      → consume_signature c hash pubkey sig s ≡ ok s'
      → (verify_signature c hash pubkey sig ≡ ok true)
        × (is_signature_used hash s ≡ false)
        × (s' ≡ mark_used hash pubkey s)
  unfolding consume_signature
  consume_signature-ok hash pubkey sig s e =
      let (b, signed, e1) = bind-ok (verify_signature c hash pubkey sig) _ e in
      let (fresh, last) = asserts-ok (not (is_signature_used hash s)) _ _ e1 in
      (verify_signature-true hash pubkey sig signed, not-false _ fresh, cc)
