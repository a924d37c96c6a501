-- ===== src/Safe/Used/Spends.antt =====
-- Every entry point of juice-safe-v7.clar that a passkey authorises spends the assertion.
use pillar_wallets_xyz.Base.{
  ℕ, String, Bool, true, false, not, Option, none, some, List, Bytes, ◌≡◌, refl, sym, ◌∙◌, ap,
  lookup, insert, bytes_eq, ==_refl,
}
use pillar_wallets_xyz.Base.Keys.{lookup-insert}
use pillar_wallets_xyz.Clarity.Outcome.{ok}
use pillar_wallets_xyz.Clarity.Contract.{◌>>=◌, then-ok, require, require-ok}
use pillar_wallets_xyz.Clarity.Contract.Keeps.{Keeps, Keeps-require, Keeps-bind}
use pillar_wallets_xyz.Safe.State.{Safe}
use pillar_wallets_xyz.Safe.External.{
  Chain, Setting, Call, read, update, read-ok, update-ok, visit, ChosenCall,
}
use pillar_wallets_xyz.Safe.Signature.{
  SigAuth, is_assertion_used, assertion_id, mark_assertion, mark_hash, consume_signature,
  is_authorized,
}
use pillar_wallets_xyz.Safe.Operations.{by_passkey}
use pillar_wallets_xyz.Safe.Frame.{
  on_chain, verify_signature-Keeps, Keeps-read, Keeps-update, pay_gas_if-Keeps,
}
use pillar_wallets_xyz.Safe.Used.{all_kept, recorded, always, used-AllowsCalls, marks_assertion}

-- It ends in `ok` only with an unused assertion, leaves it used, and forgets no other.
pub record Spends {A : Type 0} (x : Setting) (id : Bytes) (m : Call x A) : Type 0 where
  pub fresh :
      (ch : Chain x.ext) {r : A × Chain x.ext} → m ch ≡ ok r → is_assertion_used id ch.safe ≡ false
  pub spent :
      (ch : Chain x.ext) {r : A × Chain x.ext} → m ch ≡ ok r → is_assertion_used id r.1.safe ≡ true
  pub kept : (ch : Chain x.ext) {r : A × Chain x.ext} → m ch ≡ ok r → all_kept.rel ch.safe r.1.safe

there {ℓ} :
    {V : Type ℓ} (id : Bytes) (v : V) (m : List (Bytes × V))
    → elim (lookup id (insert id v m)) as (λ _. Bool) [ none ↦ false | some _ ↦ true ] ≡ true
there id v m = rw (lookup-insert, ==_refl id) refl

mark_assertion-used : (id : Bytes) (s : Safe) → is_assertion_used id (mark_assertion id s) ≡ true
unfolding is_assertion_used
mark_assertion-used id s = there id true s.used_assertions

not-false : (b : Bool) → not b ≡ true → b ≡ false
not-false true h = absurd (cc)
not-false false h = refl

contra : (b : Bool) → (b ≡ true → false ≡ true) → b ≡ false
contra true h = sym (h refl)
contra false h = refl

module _ (x : Setting) (id : Bytes) where
  -- What comes before keeps the records, so the assertion was unused already.
  pub Spends-later :
      {A B : Type 0} (m : Call x A) (f : A → Call x B)
      → Keeps (on_chain x all_kept) m
      → ((a : A) → Spends x id (f a))
      → Spends x id (m >>= f)
  unfolding on_chain all_kept
  Spends-later m f km kf = record {
    fresh = λ ch e.
        let (q, first, second) = then-ok m f ch e in
        let unused = (kf q.0).fresh q.1 second in
        contra (is_assertion_used id ch.safe) (λ used. sym unused ∙ km.at ch first id used);
    spent = λ ch e. let (q, first, second) = then-ok m f ch e in (kf q.0).spent q.1 second;
    kept = λ ch e.
        let (q, first, second) = then-ok m f ch e in
        λ k h. (kf q.0).kept q.1 second k (km.at ch first k h);
  }

  pub Spends-first :
      {A B : Type 0} (m : Call x A) (f : A → Call x B)
      → Spends x id m
      → ((a : A) → Keeps (on_chain x (recorded id)) (f a))
      → Spends x id (m >>= f)
  unfolding on_chain recorded all_kept
  Spends-first m f km kf = record {
    fresh = λ ch e. let (q, first, second) = then-ok m f ch e in km.fresh ch first;
    spent = λ ch e.
        let (q, first, second) = then-ok m f ch e in
        let used = km.spent ch first in (kf q.0).at q.1 second used id used;
    kept = λ ch e.
        let (q, first, second) = then-ok m f ch e in
        λ k h. (kf q.0).at q.1 second (km.spent ch first) k (km.kept ch first k h);
  }

  mark-spent :
      (hash pubkey : Bytes) (ch : Chain x.ext) (r : Unit {0} × Chain x.ext)
      → (update x (mark_hash hash pubkey) >>= λ _. update x (mark_assertion id)) ch ≡ ok r
      → is_assertion_used id r.1.safe ≡ true
  mark-spent hash pubkey ch r e =
      let (q, first, second) = then-ok (update x (mark_hash hash pubkey)) _ ch e in
      let end = update-ok x (mark_assertion id) q.1 second in
      rw (ap (λ r'. r'.1.safe) end) (mark_assertion-used id q.1.safe)

  -- The test and the mark.
  mark-Spends :
      (code : ℕ) (m : Call x (Unit {0}))
      → ((ch : Chain x.ext) (r : Unit {0} × Chain x.ext)
          → m ch ≡ ok r
          → is_assertion_used id r.1.safe ≡ true)
      → Keeps (on_chain x all_kept) m
      → Spends x id (read x (is_assertion_used id) >>= λ used. require (not used) code >>= λ _. m)
  unfolding on_chain
  mark-Spends code m marks keeps = record {
    fresh = λ ch {r} e.
        let (q, first, second) = then-ok (read x (is_assertion_used id)) _ ch e in
        let (p, tested, third) = then-ok (require (not q.0) code) _ q.1 second in
        let (unused, same) = require-ok (not q.0) code q.1 tested in
        let seen = ap (λ q'. q'.0) (read-ok x (is_assertion_used id) ch first) in
        sym seen ∙ not-false q.0 unused;
    spent = λ ch {r} e.
        let (q, first, second) = then-ok (read x (is_assertion_used id)) _ ch e in
        let (p, tested, third) = then-ok (require (not q.0) code) _ q.1 second in marks p.1 r third;
    kept =
        (Keeps-bind (read x (is_assertion_used id)) _ (Keeps-read x all_kept _)
          (λ used. Keeps-bind (require (not used) code) _ (Keeps-require _ _) (λ _. keeps))).at;
  }

ruleset spends_rules = (Spends-later, Spends-first)

module _ (x : Setting) (id : Bytes) where
  marks-Keeps :
      (hash pubkey : Bytes)
      → Keeps
          (on_chain x all_kept)
          (update x (mark_hash hash pubkey) >>= λ _. update x (mark_assertion id))
  marks-Keeps hash pubkey =
      Keeps-bind _ _ (always x _ (λ _. refl))
        (λ _. Keeps-update x all_kept (mark_assertion id) (marks_assertion id))

module _ (x : Setting) where
  pub consume_signature-Spends :
      (hash : Bytes) (sig : SigAuth)
      → Spends x (assertion_id x.crypto sig) (consume_signature x hash sig)
  unfolding consume_signature
  consume_signature-Spends hash sig =
      let id = assertion_id x.crypto sig in
      Spends-later x id _ _ (verify_signature-Keeps x all_kept hash sig) λ _.
        Spends-later x id _ _ (Keeps-read x all_kept _) λ _.
          Spends-later x id _ _ (Keeps-require _ _) λ _.
            mark-Spends x id _ _ (mark-spent x id hash sig.pubkey)
              (marks-Keeps x id hash sig.pubkey)

  pub by_passkey-Spends :
      (build : ℕ → Bytes) (sig : SigAuth) (gas : Option String)
      → ((call : ChosenCall)
          → Keeps (on_chain x (recorded (assertion_id x.crypto sig))) (visit x call))
      → Spends x (assertion_id x.crypto sig) (by_passkey x build sig gas)
  unfolding by_passkey is_authorized
  by_passkey-Spends build sig gas visits =
      Spends-first x _ _ _ (consume_signature-Spends (build sig.auth_id) sig)
        (λ _. pay_gas_if-Keeps x (recorded _) (used-AllowsCalls x _ visits) gas true)
