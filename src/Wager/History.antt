-- ===== src/Wager/History.antt =====
-- What no later call of game-wager-v2.clar undoes: a finished game, a used signature.
use mathlib.Core.Path.{subst}
use pillar_wallets_xyz.Base.{
  arith, ℕ, ◌≡◌, ◌≢◌, nat_eq, string_eq, bytes_eq, String, true, false, some, Bytes, sym, ap, ◌∙◌,
  List, Bool-cases, inl, inr, ==_eq, ◌==◌, lookup,
}
use pillar_wallets_xyz.Base.Keys.{lookup-insert, lookup-AllEntries}
use pillar_wallets_xyz.Clarity.Outcome.{ok}
use pillar_wallets_xyz.Clarity.Value.{Value}
use pillar_wallets_xyz.Webauthn.Crypto.{Crypto}
use pillar_wallets_xyz.Wager.State.{State, Game, get_game, is_signature_used}
use pillar_wallets_xyz.Wager.External.{External}
use pillar_wallets_xyz.Wager.Escrow.{Env, Chain, Call, exec, run, is_active}
use pillar_wallets_xyz.Wager.Step.Relation.{GamesStep, kept, opened, closed}
use pillar_wallets_xyz.Wager.Step.Games.{exec-GamesStep}
use pillar_wallets_xyz.Wager.Step.Used.{exec-StaysUsed}
use pillar_wallets_xyz.Wager.Invariant.{IsValid, IsGame, exec-IsValid, run-keeps}
use pillar_wallets_xyz.Wager.Signature.{SigAuth}
use pillar_wallets_xyz.Wager.Hashes.{build_wager_hash, build_withdraw_hash}
use pillar_wallets_xyz.Wager.Effects.{bind-ok, ok_inj, mark_used}
use pillar_wallets_xyz.Wager.Entry.Create.{create_game-ok}
use pillar_wallets_xyz.Wager.Entry.Tokens.{withdraw-ok, recipient_of}
use pillar_wallets_xyz.Wager.Escrow.{create_game, withdraw, creates_game}
use pillar_wallets_xyz.Wager.Step.Relation.{mark_used-used, mark_used-StaysUsed}

-- A state in which game `id` is over as `game` says.
pub record IsOver (id : ℕ) (game : Game) (s : State) : Type 0 where
  pub valid : IsValid s
  pub over : is_active game.status ≡ false
  pub stored : get_game id s ≡ some game

GamesStep-stored :
    (id : ℕ) (game : Game) (s s' : State)
    → GamesStep s s'
    → IsOver id game s
    → get_game id s' ≡ some game
unfolding get_game
GamesStep-stored id game s s' (kept nonce games) h = ap (lookup id) games ∙ h.stored
GamesStep-stored id game s s' (opened new is_new no_winner distinct positive nonce games) h =
    let numbered =
      (lookup-AllEntries (IsGame s.game_nonce) id s.games h.valid.games h.stored).numbered in
    let apart : (s.game_nonce == id) ≡ false = ground (arith, numbered) in
    ap (lookup id) games ∙ (lookup-insert s.game_nonce id new s.games ∙ rw apart h.stored)
GamesStep-stored id game s s' (closed other old new found was_active closing nonce games) h =
    ap (lookup id) games
    ∙ (lookup-insert other id new s.games ∙ elim (Bool-cases (other == id)) [
      | inl same ↦
          let moved = ap (λ k. lookup k s.games) (==_eq other id same) in
          let both : some old ≡ some game = sym found ∙ (moved ∙ h.stored) in
          let eq : old ≡ game = cc in
          let statuses = ap (λ (g : Game). is_active g.status) eq in
          let clash : true ≡ false = sym was_active ∙ (statuses ∙ h.over) in cc
      | inr apart ↦ rw apart h.stored
    ])

-- The two signatures of a creation, and what each is over: its auth id and the opponent.
pub data Slot : Type 0 where
  first second : Slot

abbrev pub said : Slot → Bytes → Bytes → SigAuth → SigAuth → ℕ × Bytes
said first a b sig_a sig_b = (sig_a.auth_id, b)
said second a b sig_a sig_b = (sig_b.auth_id, a)

module _ (c : Crypto) (ext : External) where
  exec-IsOver :
      (id : ℕ) (game : Game) (env : Env) (call : Call) (ch : Chain ext) {r : Value × Chain ext}
      → exec c ext env call ch ≡ ok r
      → IsOver id game ch.wager
      → IsOver id game r.1.wager
  exec-IsOver id game env call ch {r} e h = record {
    valid = exec-IsValid c ext env call ch e h.valid;
    over = h.over;
    stored = GamesStep-stored id game ch.wager r.1.wager (exec-GamesStep c ext env call ch e) h;
  }

  -- In a valid state, a stored game that is not active is stored unchanged after any sequence of
  -- calls.
  pub run-get_game :
      (id : ℕ) (game : Game) (calls : List (Env × Call)) (ch : Chain ext)
      → IsValid ch.wager
      → is_active game.status ≡ false
      → get_game id ch.wager ≡ some game
      → get_game id (run c ext calls ch).wager ≡ some game
  run-get_game id game calls ch valid over stored =
      (run-keeps c ext (λ ch'. IsOver id game ch'.wager)
        (λ env call ch' r e. exec-IsOver id game env call ch' e) calls ch
        (record { valid = valid; over = over; stored = stored })).stored

  pub run-is_signature_used :
      (hash : Bytes) (calls : List (Env × Call)) (ch : Chain ext)
      → is_signature_used hash ch.wager ≡ true
      → is_signature_used hash (run c ext calls ch).wager ≡ true
  run-is_signature_used hash =
      run-keeps c ext (λ ch. is_signature_used hash ch.wager ≡ true)
        (λ env call ch r e. exec-StaysUsed c ext env hash call ch e)

  used-unused :
      (hash : Bytes) (s : State)
      → is_signature_used hash s ≡ true
      → is_signature_used hash s ≢ false
  used-unused hash s used fresh = let clash : true ≡ false = sym used ∙ fresh in cc

  wager_hash : Env → String → ℕ → ℕ × Bytes → Bytes
  wager_hash env token amount said =
      build_wager_hash c env.chain env.contract said.0 said.1 token amount

  -- Both hashes of a created game are used afterwards.
  created-used :
      (env : Env) (a b : Bytes) (token : String) (amount : ℕ) (sig_a sig_b : SigAuth) (slot : Slot)
      (ch : Chain ext) {r : Value × Chain ext}
      → exec c ext env (creates_game a b token amount sig_a sig_b) ch ≡ ok r
      → is_signature_used (wager_hash env token amount (said slot a b sig_a sig_b)) r.1.wager ≡ true
  unfolding exec is_signature_used wager_hash
  created-used env a b token amount sig_a sig_b slot ch {r} e =
      let (q, ran, last) = bind-ok (create_game c env a b token amount sig_a sig_b ch.wager) _ e in
      let made = create_game-ok c env a b token amount sig_a sig_b ch.wager ran in
      let hash = wager_hash env token amount (said first a b sig_a sig_b) in
      let hash_b = wager_hash env token amount (said second a b sig_a sig_b) in
      let marked_a = mark_used hash a ch.wager in
      let after : (k : Bytes)
          → is_signature_used k (mark_used hash_b b marked_a) ≡ true
          → is_signature_used k r.1.wager ≡ true =
        λ k h.
          subst (λ s. is_signature_used k s ≡ true)
            (ap (λ (p : Value × Chain ext). p.1.wager) (ok_inj last))
            (subst (λ s. is_signature_used k s ≡ true) (sym made.next) h) in
      chosen slot
        (after hash (mark_used-StaysUsed hash hash_b b marked_a (mark_used-used hash a ch.wager)))
        (after hash_b (mark_used-used hash_b b marked_a))
    where
      chosen :
          (slot' : Slot)
          → is_signature_used (wager_hash env token amount (said first a b sig_a sig_b)) r.1.wager
            ≡ true
          → is_signature_used (wager_hash env token amount (said second a b sig_a sig_b)) r.1.wager
            ≡ true
          → is_signature_used (wager_hash env token amount (said slot' a b sig_a sig_b)) r.1.wager
            ≡ true
      chosen first h h' = h
      chosen second h h' = h'

  -- No game is created with a used hash.
  used-create_game :
      (env : Env) (a b : Bytes) (token : String) (amount : ℕ) (sig_a sig_b : SigAuth) (slot : Slot)
      (s : State) (r : Value × State)
      → is_signature_used (wager_hash env token amount (said slot a b sig_a sig_b)) s ≡ true
      → create_game c env a b token amount sig_a sig_b s ≢ ok r
  unfolding wager_hash
  used-create_game env a b token amount sig_a sig_b first s r used made =
      used-unused _ s used (create_game-ok c env a b token amount sig_a sig_b s made).fresh_a
  used-create_game env a b token amount sig_a sig_b second s r used made =
      let hash_a = wager_hash env token amount (said first a b sig_a sig_b) in
      let hash_b = wager_hash env token amount (said second a b sig_a sig_b) in
      used-unused hash_b (mark_used hash_a a s) (mark_used-StaysUsed hash_b hash_a a s used)
        (create_game-ok c env a b token amount sig_a sig_b s made).fresh_b

  -- Once a game is created, no creation after any further calls ends in ok on the same chain and
  -- contract for the same token and stake if one of its two signatures, the first or the second, has
  -- the auth id and the opponent of one of the two signatures of that game, whoever signs it.
  pub create_game-once :
      (env env' : Env) (a b a' b' : Bytes) (token : String) (amount : ℕ)
      (sig_a sig_b sig_a' sig_b' : SigAuth) (slot slot' : Slot) (calls : List (Env × Call))
      (ch : Chain ext) (r : Value × Chain ext) (r' : Value × State)
      → exec c ext env (creates_game a b token amount sig_a sig_b) ch ≡ ok r
      → env'.chain ≡ env.chain
      → env'.contract ≡ env.contract
      → said slot' a' b' sig_a' sig_b' ≡ said slot a b sig_a sig_b
      → create_game c env' a' b' token amount sig_a' sig_b' (run c ext calls r.1).wager ≢ ok r'
  unfolding wager_hash
  create_game-once env env' a b a' b' token amount sig_a sig_b sig_a' sig_b' slot slot' calls ch r
        r' e chains contracts same again =
      let later = (run c ext calls r.1).wager in
      let hash = wager_hash env token amount (said slot a b sig_a sig_b) in
      let hashes : hash ≡ wager_hash env' token amount (said slot' a' b' sig_a' sig_b') = cc in
      let used : is_signature_used hash later ≡ true =
        run-is_signature_used hash calls r.1
          (created-used env a b token amount sig_a sig_b slot ch e) in
      used-create_game env' a' b' token amount sig_a' sig_b' slot' later r'
        (subst (λ h. is_signature_used h later ≡ true) hashes used) again

  -- Once a withdrawal has ended in ok, no withdrawal after any further calls ends in ok on the
  -- same chain and contract if it has the same auth id, amount, token and actual recipient,
  -- whoever signs it.
  pub withdraw-once :
      (env env' : Env) (token name name' : String) (amount : ℕ) (recipient recipient' : String)
      (pubkey pubkey' : Bytes) (sig sig' : SigAuth) (calls : List (Env × Call)) (ch : Chain ext)
      (r r' : Value × Chain ext)
      → withdraw c ext env token name amount recipient pubkey sig ch ≡ ok r
      → env'.chain ≡ env.chain
      → env'.contract ≡ env.contract
      → sig'.auth_id ≡ sig.auth_id
      → recipient_of c ext env' (run c ext calls r.1) recipient' pubkey'
        ≡ recipient_of c ext env ch recipient pubkey
      → withdraw c ext env' token name' amount recipient' pubkey' sig' (run c ext calls r.1) ≢ ok r'
  unfolding is_signature_used
  withdraw-once env env' token name name' amount recipient recipient' pubkey pubkey' sig sig' calls
        ch r r' e chains contracts ids recipients again =
      let done = withdraw-ok c ext env ch token name amount recipient pubkey sig e in
      let to = recipient_of c ext env ch recipient pubkey in
      let hash = build_withdraw_hash c env.chain env.contract sig.auth_id amount to token in
      let stored : is_signature_used hash r.1.wager ≡ true =
        subst (λ s. is_signature_used hash s ≡ true) (sym done.next)
          (mark_used-used hash pubkey ch.wager) in
      let later = run c ext calls r.1 in
      let done' = withdraw-ok c ext env' later token name' amount recipient' pubkey' sig' again in
      let to' = recipient_of c ext env' later recipient' pubkey' in
      let same : build_withdraw_hash c env'.chain env'.contract sig'.auth_id amount to' token
          ≡ hash =
        cc in
      used-unused hash later.wager (run-is_signature_used hash calls r.1 stored)
        (subst (λ h. is_signature_used h later.wager ≡ false) same done'.fresh)
