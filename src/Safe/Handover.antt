-- ===== src/Safe/Handover.antt =====
-- Who is an admin after `confirm-transfer-wallet` of juice-safe-v7.clar.
use pillar_wallets_xyz.Base.{
  ℕ, String, Bool, true, false, not, Option, none, some, ◌≡◌, refl, ap, ap₂, ◌∙◌, lookup, insert,
  string_eq, ◌==◌, if◌then◌else◌,
}
use pillar_wallets_xyz.Base.Keys.{lookup-insert, lookup-delete}
use pillar_wallets_xyz.Clarity.Outcome.{ok}
use pillar_wallets_xyz.Clarity.Contract.{◌>>=◌, then-ok, require}
use pillar_wallets_xyz.Clarity.Contract.Keeps.{Change, Keeps, Keeps-require, Keeps-bind}
use pillar_wallets_xyz.Safe.State.{Safe, Spent, is_admin, nobody}
use pillar_wallets_xyz.Safe.External.{
  Setting, Chain, read, update, read-ok, update-ok, outside, LeavesSafe,
}
use pillar_wallets_xyz.Safe.Signature.{SigAuth, is_authorized}
use pillar_wallets_xyz.Safe.Spending.{set_spent, add_spent_gas, pay_gas_if}
use pillar_wallets_xyz.Safe.Operations.{update_activity}
use pillar_wallets_xyz.Safe.Ownership.{
  add_admin, drop_admin, set_owner, set_pending_transfer, hand_over, confirm_transfer_wallet,
}
use pillar_wallets_xyz.Safe.Frame.{
  on_chain, AllowsCalls, frame_rules, Keeps-update, LeavesSafe-visits, Keeps-outside, Keeps-read,
  is_authorized-Keeps, pay_gas_if-Keeps, update_activity-Keeps,
}

-- Who is an admin, who owns, and who shall own.
record SameOwners (s s' : Safe) : Type 0 where
  admins : s'.admins ≡ s.admins
  owner : s'.owner ≡ s.owner
  pending : s'.pending_transfer ≡ s.pending_transfer

owners_fixed : Change Safe
owners_fixed = record {
  rel = SameOwners;
  none_made = λ s. record { admins = refl; owner = refl; pending = refl };
  both = λ a b. record {
    admins = b.admins ∙ a.admins;
    owner = b.owner ∙ a.owner;
    pending = b.pending ∙ a.pending;
  };
}

module _ (x : Setting) where
  set_spent-Keeps : (spent : Spent) → Keeps (on_chain x owners_fixed) (update x (set_spent spent))
  unfolding owners_fixed
  set_spent-Keeps spent =
      Keeps-update x owners_fixed _ (λ s. record { admins = refl; owner = refl; pending = refl })

  spends_gas : (n : ℕ) → Keeps (on_chain x owners_fixed) (add_spent_gas x n)
  unfolding add_spent_gas
  spends_gas n = search (frame_rules, set_spent-Keeps) depth 20

  owners-AllowsCalls : LeavesSafe x.ext → AllowsCalls x owners_fixed
  unfolding owners_fixed
  owners-AllowsCalls quiet = record {
    marks_hash = λ hash pubkey s. record { admins = refl; owner = refl; pending = refl };
    marks_assertion = λ id s. record { admins = refl; owner = refl; pending = refl };
    active = λ height s. record { admins = refl; owner = refl; pending = refl };
    spends_gas = spends_gas;
    visits = LeavesSafe-visits x owners_fixed quiet;
  }

-- The order of the two writes: the new admin is added, then the old owner is removed.
handed : String → Safe → Safe
handed pending s =
    set_pending_transfer nobody (set_owner pending (drop_admin s.owner (add_admin pending s)))

present : Option Bool → Bool
present o = elim o [ none ↦ false | some _ ↦ true ]

present_if :
    (b d : Bool) (o : Option Bool)
    → present (if b then none else (if d then some true else o))
      ≡ (if b then false else (if d then true else present o))
unfolding present
present_if true d o = refl
present_if false true o = refl
present_if false false o = refl

is_admin-handed :
    (who pending : String) (s : Safe)
    → is_admin who (handed pending s)
      ≡ (if s.owner == who then false else (if pending == who then true else is_admin who s))
unfolding is_admin handed present
is_admin-handed who pending s =
    ap present (
      lookup-delete s.owner who (insert pending true s.admins)
      ∙ ap (λ (o : Option Bool). if s.owner == who then none else o)
          (lookup-insert pending who true s.admins))
    ∙ present_if (s.owner == who) (pending == who) (lookup who s.admins)

module _ (x : Setting) where
  hand_over-ok :
      (pending : String) (ch : Chain x.ext) {r : Unit {0} × Chain x.ext}
      → hand_over x pending ch ≡ ok r
      → r.1.safe ≡ handed pending ch.safe
  unfolding hand_over handed
  hand_over-ok pending ch {r} e =
      let (q1, e1, rest1) = then-ok (update x (add_admin pending)) _ ch e in
      let (q2, e2, rest2) = then-ok (read x (λ s. s.owner)) _ q1.1 rest1 in
      let (q3, e3, rest3) = then-ok (update x (drop_admin q2.0)) _ q2.1 rest2 in
      let (q4, e4, rest4) = then-ok (update x (set_owner pending)) _ q3.1 rest3 in
      let added = ap (λ q. q.1.safe) (update-ok x (add_admin pending) ch e1) in
      let seen = read-ok x (λ s. s.owner) q1.1 e2 in
      let dropped = ap (λ q. q.1.safe) (update-ok x (drop_admin q2.0) q2.1 e3) in
      let owned = ap (λ q. q.1.safe) (update-ok x (set_owner pending) q3.1 e4) in
      let last = ap (λ q. q.1.safe) (update-ok x (set_pending_transfer nobody) q4.1 rest4) in
      let old : q2.0 ≡ ch.safe.owner = ap (λ q. q.0) seen ∙ ap (λ s. s.owner) added in
      last
      ∙ ap (set_pending_transfer nobody) owned
      ∙ ap (λ s. set_pending_transfer nobody (set_owner pending s)) dropped
      ∙ ap (λ s. set_pending_transfer nobody (set_owner pending (drop_admin q2.0 s)))
          (ap (λ q. q.1.safe) seen ∙ added)
      ∙ ap
          (λ o.
            set_pending_transfer nobody
              (set_owner pending (drop_admin o (add_admin pending ch.safe))))
          old

  -- If no contract that the caller names changes the wallet by calling it back, then after a
  -- confirmed transfer the owner is the pending one. The former owner is no admin, the
  -- pending owner is one unless the two are the same, and every other address is an admin as
  -- before.
  pub confirm_transfer_wallet-admins :
      (sig : SigAuth) (gas : Option String) (ch : Chain x.ext) (r : Unit {0} × Chain x.ext)
      (who : String)
      → LeavesSafe x.ext
      → confirm_transfer_wallet x sig gas ch ≡ ok r
      → (r.1.safe.owner ≡ ch.safe.pending_transfer)
        × (is_admin who r.1.safe ≡ (
            if ch.safe.owner == who
            then false
            else (if ch.safe.pending_transfer == who then true else is_admin who ch.safe)))
  unfolding confirm_transfer_wallet on_chain owners_fixed handed is_admin present
  confirm_transfer_wallet-admins sig gas ch r who quiet e =
      let calls = owners-AllowsCalls x quiet in
      let (q1, e1, rest1) = then-ok (read x (λ s. s.pending_transfer)) _ ch e in
      let (q2, e2, rest2) = then-ok (require (not (q1.0 == nobody)) _) _ q1.1 rest1 in
      let (q3, e3, rest3) = then-ok (is_authorized x _) _ q2.1 rest2 in
      let (q4, e4, rest4) = then-ok (pay_gas_if x gas false) _ q3.1 rest3 in
      let (q5, e5, rest5) = then-ok (outside x _) _ q4.1 rest4 in
      let (q6, e6, rest6) = then-ok (outside x _) _ q5.1 rest5 in
      let (q7, e7, rest7) = then-ok (require _ _) _ q6.1 rest6 in
      let (q8, e8, rest8) = then-ok (hand_over x q1.0) _ q7.1 rest7 in
      let R = owners_fixed in
      let pay = pay_gas_if-Keeps x R calls gas false in
      let world : SameOwners q4.1.safe q6.1.safe =
        R.both ((Keeps-outside x R _).at q4.1 e5) ((Keeps-outside x R _).at q5.1 e6) in
      let begun : SameOwners ch.safe q2.1.safe =
        R.both ((Keeps-read x R _).at ch e1) ((Keeps-require {R = on_chain x R} _ _).at q1.1 e2) in
      let paid : SameOwners q2.1.safe q4.1.safe =
        R.both ((is_authorized-Keeps x R calls _).at q2.1 e3) (pay.at q3.1 e4) in
      let checked : SameOwners q6.1.safe q7.1.safe =
        (Keeps-require {R = on_chain x R} _ _).at q6.1 e7 in
      let before : SameOwners ch.safe q7.1.safe =
        R.both begun (R.both paid (R.both world checked)) in
      let ending : Keeps (on_chain x R) (update_activity x >>= λ _. outside x _) =
        Keeps-bind _ _ (update_activity-Keeps x R calls) (λ _. Keeps-outside x R _) in
      let after : SameOwners q8.1.safe r.1.safe = ending.at q8.1 rest8 in
      let next = hand_over-ok q1.0 q7.1 e8 in
      let pending : q1.0 ≡ ch.safe.pending_transfer =
        ap (λ q. q.0) (read-ok x (λ s. s.pending_transfer) ch e1) in
      finish ch.safe q7.1.safe q8.1.safe r.1.safe q1.0 before after next pending
    where
      finish :
          (s s7 s8 s' : Safe) (p : String)
          → SameOwners s s7
          → SameOwners s8 s'
          → s8 ≡ handed p s7
          → p ≡ s.pending_transfer
          → (s'.owner ≡ s.pending_transfer)
            × (is_admin who s' ≡ (
                if s.owner == who
                then false
                else (if s.pending_transfer == who then true else is_admin who s)))
      finish s s7 s8 s' p before after next pending =
          let same : s8 ≡ handed s.pending_transfer s7 = next ∙ ap (λ q. handed q s7) pending in
          let admins : is_admin who s' ≡ is_admin who (handed s.pending_transfer s7) =
            ap present (ap (lookup who) after.admins) ∙ ap (is_admin who) same in
          (
            after.owner ∙ ap (λ t. t.owner) same,
            admins
                ∙ is_admin-handed who s.pending_transfer s7
                ∙ ap₂
                    (λ owner known.
                      if owner == who
                      then false
                      else (if s.pending_transfer == who then true else known))
                    before.owner (ap present (ap (lookup who) before.admins)),
          )
