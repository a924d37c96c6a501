-- ===== src/Safe/Frame.antt =====
-- Which changes of the wallet a call can make: a relation that every update of a group keeps is
-- kept by the calls that are built from the group.
pub mod Entries
pub mod Operations
use mathlib.Core.Path.{subst}
use pillar_wallets_xyz.Base.{ℕ, String, Bool, true, false, Option, none, some, Bytes, ◌≡◌, sym}
use pillar_wallets_xyz.Clarity.Outcome.{Outcome, ok, err, abort}
use pillar_wallets_xyz.Clarity.Contract.{gets, modify}
use pillar_wallets_xyz.Clarity.Contract.Keeps.{
  Change, Keeps, Keeps-gets, Keeps-modify, Keeps-advance, keeps_rules,
}
use pillar_wallets_xyz.Safe.State.{Safe}
use pillar_wallets_xyz.Safe.External.{
  Setting, Chain, read, read_world, update, outside, in_world, visit, ChosenCall, LeavesSafe,
}
use pillar_wallets_xyz.Safe.Signature.{
  SigAuth, mark_hash, mark_assertion, is_admin_calling, is_admin_pubkey, verify_signature,
  consume_signature, is_authorized,
}
use pillar_wallets_xyz.Safe.Spending.{
  get_current_spent, would_exceed_stx_threshold, would_exceed_sbtc_threshold, max_gas_per_period,
  gas_exceeded, add_spent_gas, pay_gas_accounted, pay_gas_if,
}
use pillar_wallets_xyz.Safe.Operations.{
  update_activity, by_passkey, passkey_or_admin, unlocked_passkey_or_admin,
}

-- A relation on the wallet's variables, whatever happens outside.
unfoldable pub on_chain : (x : Setting) → Change Safe → Change (Chain x.ext)
on_chain x R = record {
  rel = λ a b. R.rel a.safe b.safe;
  none_made = λ a. R.none_made a.safe;
  both = λ first second. R.both first second;
}

module _ (x : Setting) (R : Change Safe) where
  pub Keeps-read : {A : Type 0} (f : Safe → A) → Keeps (on_chain x R) (read x f)
  unfolding on_chain read gets
  Keeps-read f = Keeps-gets (λ (ch : Chain x.ext). f ch.safe)

  pub Keeps-read_world : {A : Type 0} (f : x.ext.World → A) → Keeps (on_chain x R) (read_world x f)
  unfolding on_chain read_world gets
  Keeps-read_world f = Keeps-gets (λ (ch : Chain x.ext). f ch.world)

  pub Keeps-update :
      (f : Safe → Safe) → ((s : Safe) → R.rel s (f s)) → Keeps (on_chain x R) (update x f)
  unfolding on_chain update modify
  Keeps-update f k =
      Keeps-modify (λ (ch : Chain x.ext). record ch { safe = f ch.safe }) (λ ch. k ch.safe)

  in_world-safe :
      (ch ch' : Chain x.ext) (o : Outcome x.ext.World)
      → in_world x ch o ≡ ok ch'
      → R.rel ch.safe ch'.safe
  unfolding in_world
  in_world-safe ch ch' (ok w) e =
      let same : ch'.safe ≡ ch.safe = cc in rw same (R.none_made ch.safe)
  in_world-safe ch ch' (err n) e = absurd (cc)
  in_world-safe ch ch' abort e = absurd (cc)

  pub Keeps-outside : (f : x.ext.World → Outcome x.ext.World) → Keeps (on_chain x R) (outside x f)
  unfolding on_chain outside
  Keeps-outside f = Keeps-advance _ (λ ch ch' e. in_world-safe ch ch' (f ch.world) e)

  -- A contract that leaves the wallet alone keeps every relation.
  pub LeavesSafe-visits :
      LeavesSafe x.ext → (call : ChosenCall) → Keeps (on_chain x R) (visit x call)
  unfolding on_chain visit
  LeavesSafe-visits quiet call =
      Keeps-advance _
        (λ ch ch' e. subst (R.rel ch.safe) (sym (quiet.same call ch ch' e)) (R.none_made ch.safe))

  ruleset call_rules = (keeps_rules, Keeps-read, Keeps-read_world, Keeps-outside)

  pub is_admin_calling-Keeps : (caller : String) → Keeps (on_chain x R) (is_admin_calling x caller)
  unfolding is_admin_calling
  is_admin_calling-Keeps caller = search call_rules depth 20

  pub verify_signature-Keeps :
      (hash : Bytes) (sig : SigAuth) → Keeps (on_chain x R) (verify_signature x hash sig)
  unfolding verify_signature is_admin_pubkey
  verify_signature-Keeps hash sig = search call_rules depth 20

  pub get_current_spent-Keeps : Keeps (on_chain x R) (get_current_spent x)
  unfolding get_current_spent
  get_current_spent-Keeps = search call_rules depth 20

  pub would_exceed_stx_threshold-Keeps :
      (n : ℕ) → Keeps (on_chain x R) (would_exceed_stx_threshold x n)
  unfolding would_exceed_stx_threshold
  would_exceed_stx_threshold-Keeps n = search (call_rules, get_current_spent-Keeps) depth 20

  pub would_exceed_sbtc_threshold-Keeps :
      (n : ℕ) → Keeps (on_chain x R) (would_exceed_sbtc_threshold x n)
  unfolding would_exceed_sbtc_threshold
  would_exceed_sbtc_threshold-Keeps n = search (call_rules, get_current_spent-Keeps) depth 20

  gas_exceeded-Keeps :
      (enforce : Bool) (fee : ℕ) → Keeps (on_chain x R) (gas_exceeded x enforce fee)
  unfolding gas_exceeded max_gas_per_period
  gas_exceeded-Keeps true fee = search (call_rules, get_current_spent-Keeps) depth 20
  gas_exceeded-Keeps false fee = search call_rules depth 20

  -- What every authorised call may change: the records of used signatures, the activity block, the
  -- gas spent, and what the contracts that the caller names change by calling back.
  pub record AllowsCalls : Type 0 where
    pub marks_hash : (hash pubkey : Bytes) (s : Safe) → R.rel s (mark_hash hash pubkey s)
    pub marks_assertion : (id : Bytes) (s : Safe) → R.rel s (mark_assertion id s)
    pub active : (height : ℕ) (s : Safe) → R.rel s (record s { last_activity_block = height })
    pub spends_gas : (fee : ℕ) → Keeps (on_chain x R) (add_spent_gas x fee)
    pub visits : (call : ChosenCall) → Keeps (on_chain x R) (visit x call)

module _ (x : Setting) (R : Change Safe) (calls : AllowsCalls x R) where
  pub visit-Keeps : (call : ChosenCall) → Keeps (on_chain x R) (visit x call)
  visit-Keeps call = calls.visits call

  mark_hash-Keeps : (hash pubkey : Bytes) → Keeps (on_chain x R) (update x (mark_hash hash pubkey))
  mark_hash-Keeps hash pubkey = Keeps-update x R _ (calls.marks_hash hash pubkey)

  mark_assertion-Keeps : (id : Bytes) → Keeps (on_chain x R) (update x (mark_assertion id))
  mark_assertion-Keeps id = Keeps-update x R _ (calls.marks_assertion id)

  consume_signature-Keeps :
      (hash : Bytes) (sig : SigAuth) → Keeps (on_chain x R) (consume_signature x hash sig)
  unfolding consume_signature
  consume_signature-Keeps hash sig =
      search (call_rules, verify_signature-Keeps, mark_hash-Keeps, mark_assertion-Keeps) depth 30

  pub is_authorized-Keeps :
      (message : Option (Bytes × SigAuth)) → Keeps (on_chain x R) (is_authorized x message)
  unfolding is_authorized
  is_authorized-Keeps none = is_admin_calling-Keeps x R _
  is_authorized-Keeps (some (hash, sig)) = consume_signature-Keeps hash sig

  pub update_activity-Keeps : Keeps (on_chain x R) (update_activity x)
  unfolding update_activity
  update_activity-Keeps = Keeps-update x R _ (calls.active x.env.burn_block_height)

  pub pay_gas_if-Keeps :
      (gas : Option String) (enforce : Bool) → Keeps (on_chain x R) (pay_gas_if x gas enforce)
  unfolding pay_gas_if pay_gas_accounted
  pay_gas_if-Keeps none enforce = search call_rules depth 20
  pay_gas_if-Keeps (some station) enforce =
      search (call_rules, gas_exceeded-Keeps, calls.spends_gas, calls.visits) depth 20

  pub by_passkey-Keeps :
      (build : ℕ → Bytes) (sig : SigAuth) (gas : Option String)
      → Keeps (on_chain x R) (by_passkey x build sig gas)
  unfolding by_passkey
  by_passkey-Keeps build sig gas =
      search (call_rules, is_authorized-Keeps, pay_gas_if-Keeps) depth 20

  pub passkey_or_admin-Keeps :
      (build : ℕ → Bytes) (sig_auth : Option SigAuth) (gas : Option String)
      → Keeps (on_chain x R) (passkey_or_admin x build sig_auth gas)
  unfolding passkey_or_admin
  passkey_or_admin-Keeps build none gas = is_authorized-Keeps none
  passkey_or_admin-Keeps build (some sig) gas = by_passkey-Keeps build sig gas

  pub unlocked_passkey_or_admin-Keeps :
      (build : ℕ → Bytes) (sig_auth : Option SigAuth) (gas : Option String)
      → Keeps (on_chain x R) (unlocked_passkey_or_admin x build sig_auth gas)
  unfolding unlocked_passkey_or_admin
  unlocked_passkey_or_admin-Keeps build none gas = is_authorized-Keeps none
  unlocked_passkey_or_admin-Keeps build (some sig) gas =
      search (call_rules, by_passkey-Keeps) depth 20

pub ruleset frame_rules = (
  keeps_rules, Keeps-read, Keeps-read_world, Keeps-outside, visit-Keeps, is_admin_calling-Keeps,
  get_current_spent-Keeps, would_exceed_stx_threshold-Keeps, would_exceed_sbtc_threshold-Keeps,
  is_authorized-Keeps, update_activity-Keeps, pay_gas_if-Keeps, by_passkey-Keeps,
  passkey_or_admin-Keeps, unlocked_passkey_or_admin-Keeps,
)
