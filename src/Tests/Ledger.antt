-- ===== src/Tests/Ledger.antt =====
-- A small ledger that keeps what the escrow holds of each token.
use pillar_wallets_xyz.Base.{
  arith, ℕ, ◌+◌, ◌-◌, ◌≤◌, ◌≡◌, ◌≢◌, String, string_eq, Bool, true, false, leb, ◌==◌, ==_refl,
  ==_eq, sym, ap, if◌then◌else◌, Bool-cases, inl, inr,
}
use pillar_wallets_xyz.Clarity.Outcome.{ok, err}
use pillar_wallets_xyz.Wager.Effects.{ok_inj}
use pillar_wallets_xyz.Wager.External.{External, IsSip010}

abbrev received : String → ℕ → (String → ℕ) → String → ℕ
received token amount l t = if token == t then l t + amount else l t

abbrev paid : String → ℕ → (String → ℕ) → String → ℕ
paid token amount l t = if token == t then l t - amount else l t

abbrev pub ledger : External
ledger = record {
  Ledger = String → ℕ;
  held = λ l t p. l t;
  transfer = λ token amount sender recipient l. ok (received token amount l);
  transfer_as_contract = λ token name amount sender recipient l.
      if leb amount (l token) then ok (paid token amount l) else err 1;
  is_admin_pubkey = λ wallet pubkey l. ok l;
}

pub ledger-IsSip010 : (contract : String) → IsSip010 ledger contract
ledger-IsSip010 contract = record {
  transfer_in = λ token amount sender l l' other e.
      let eq = ap (λ (m : String → ℕ). m token) (ok_inj e) in
      received_self token amount l (l' token) eq;
  transfer_in_others = λ token amount sender other l l' e apart.
      let eq = ap (λ (m : String → ℕ). m other) (ok_inj e) in
      received_others token other amount l (l' other) eq;
  payout =
      λ token name amount recipient l l' e. pays token token amount l l' (leb amount (l token)) e;
  payout_others = λ token name amount recipient other l l' e apart.
      pays_others token other amount l l' (leb amount (l token)) apart e;
  admin_check = λ wallet pubkey token l l' e.
      let eq : l token ≡ l' token = ap (λ (m : String → ℕ). m token) (ok_inj e) in omega arith;
}
  where
    received_self :
        (token : String) (amount : ℕ) (l : String → ℕ) (n : ℕ)
        → received token amount l token ≡ n
        → l token + amount ≤ n
    received_self token amount l n e =
        let eq : l token + amount ≡ n = rw (==_refl token) at e in omega arith

    received_others :
        (token other : String) (amount : ℕ) (l : String → ℕ) (n : ℕ)
        → received token amount l other ≡ n
        → l other ≤ n
    received_others token other amount l n e = elim (Bool-cases (token == other)) [
      | inl same ↦ let eq : l other + amount ≡ n = rw same at e in omega arith
      | inr apart ↦ let eq : l other ≡ n = rw apart at e in omega arith
    ]

    pays :
        (token t : String) (amount : ℕ) (l l' : String → ℕ) (enough : Bool)
        → (if enough then ok (paid token amount l) else err 1) ≡ ok l'
        → l t ≤ l' t + amount
    pays token t amount l l' true e =
        let eq = ap (λ (m : String → ℕ). m t) (ok_inj e) in
        elim (Bool-cases (token == t)) [
          | inl same ↦ let eq' : l t - amount ≡ l' t = rw same at eq in omega arith
          | inr apart ↦ let eq' : l t ≡ l' t = rw apart at eq in omega arith
        ]
    pays token t amount l l' false e = cc

    pays_others :
        (token t : String) (amount : ℕ) (l l' : String → ℕ) (enough : Bool)
        → t ≢ token
        → (if enough then ok (paid token amount l) else err 1) ≡ ok l'
        → l t ≤ l' t
    pays_others token t amount l l' true apart e =
        let eq = ap (λ (m : String → ℕ). m t) (ok_inj e) in
        elim (Bool-cases (token == t)) [
          | inl same ↦ elim (apart (sym (==_eq token t same))) [ ]
          | inr other ↦ let eq' : l t ≡ l' t = rw other at eq in omega arith
        ]
    pays_others token t amount l l' false apart e = cc
