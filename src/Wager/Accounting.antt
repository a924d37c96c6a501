-- ===== src/Wager/Accounting.antt =====
-- How the entry points of game-wager-v2.clar change what the escrow owes.
use mathlib.Core.Path.{subst}
use pillar_wallets_xyz.Base.{
  arith, ℕ, ◌+◌, ◌*◌, ◌≡◌, refl, nat_eq, String, true, some, Bytes, ap, ◌∙◌,
}
use pillar_wallets_xyz.Base.Keys.{weight_at}
use pillar_wallets_xyz.Clarity.Outcome.{ok}
use pillar_wallets_xyz.Clarity.Value.{Value}
use pillar_wallets_xyz.Webauthn.Crypto.{Crypto}
use pillar_wallets_xyz.Wager.State.{
  State, Game, cancelled, get_game, get_balance, get_accumulated_fees,
}
use pillar_wallets_xyz.Wager.Signature.{SigAuth}
use pillar_wallets_xyz.Wager.External.{External}
use pillar_wallets_xyz.Wager.Escrow.{
  Env, Chain, is_active, create_game, resolve_game, cancel_game, deposit, register_wallet, withdraw,
  sweep_fees,
}
use pillar_wallets_xyz.Wager.Effects.{credited, debited, charged, mark_used, set_game}
use pillar_wallets_xyz.Wager.Owed.{
  owed, share, share_add, game_weight, owed-credited, owed-debited, owed-charged, owed-swept,
  owed-set_game,
}
use pillar_wallets_xyz.Wager.Entry.Create.{create_game-ok, new_game, hash_of}
use pillar_wallets_xyz.Wager.Entry.Tokens.{
  deposit-ok, register_wallet-ok, withdraw-ok, sweep_fees-ok, recipient_of, withdrawal_hash,
}
use pillar_wallets_xyz.Wager.Entry.Close.{resolve_game-ok, cancel_game-ok, resolved_game}

share_double :
    (t token : String) (n : ℕ) → share t token (n * 2) ≡ share t token n + share t token n
share_double t token n =
    let twice : n * 2 ≡ n + n = omega arith in ap (share t token) twice ∙ share_add t token n n

-- What an active game weighs, and what a pot splits into.
active_weight :
    (t : String) (id : ℕ) (game : Game) (s : State)
    → get_game id s ≡ some game
    → is_active game.status ≡ true
    → weight_at (game_weight t) id (get_game id s) ≡ share t game.token (game.wager_amount * 2)
active_weight t id game s found is_on = rw (found, is_on) refl

share_split :
    (t token : String) (a b whole : ℕ)
    → a + b ≡ whole
    → share t token whole ≡ share t token a + share t token b
share_split t token a b whole e =
    subst (λ w. share t token w ≡ share t token a + share t token b) e (share_add t token a b)

module _ (t : String) where
  pub create_game-owed :
      (c : Crypto) (env : Env) (a b : Bytes) (token : String) (wager_amount : ℕ)
      (sig_a sig_b : SigAuth) (s : State) {r : Value × State}
      → create_game c env a b token wager_amount sig_a sig_b s ≡ ok r
      → owed t r.1 + weight_at (game_weight t) s.game_nonce (get_game s.game_nonce s) ≡ owed t s
  unfolding owed get_accumulated_fees is_active get_game get_balance
  create_game-owed c env a b token n sig_a sig_b s {r} e =
      let h = create_game-ok c env a b token n sig_a sig_b s e in
      let used : State =
        mark_used (hash_of c env a b token n sig_a sig_b s sig_b.auth_id a) b
          (mark_used (hash_of c env a b token n sig_a sig_b s sig_a.auth_id b) a s) in
      let one = owed-debited t a token n used h.funds_a in
      let two = owed-debited t b token n (debited a token n used) h.funds_b in
      let game = new_game env a b token n in
      let three = owed-set_game t s.game_nonce game (debited b token n (debited a token n used)) in
      let eq : owed t r.1
          ≡ owed t (set_game s.game_nonce game (debited b token n (debited a token n used))) =
        ap (owed t) h.next in
      omega (arith, one, two, three, eq, share_double t token n)

  -- A resolution that ends in ok leaves what the escrow owes in every token unchanged.
  pub resolve_game-owed :
      (env : Env) (id : ℕ) (winner : Bytes) (s : State) {r : Value × State}
      → resolve_game env id winner s ≡ ok r
      → owed t r.1 ≡ owed t s
  unfolding is_active get_game
  resolve_game-owed env id winner s e =
      let h = resolve_game-ok env id s winner e in
      let game = h.game in
      let paid = credited winner game.token h.payout s in
      let one = owed-credited t winner game.token h.payout s in
      let two = owed-charged t game.token h.fee paid in
      let closed = resolved_game env id s winner game in
      let three = owed-set_game t id closed (charged game.token h.fee paid) in
      let before = active_weight t id game s h.found h.was_active in
      let pot = share_split t game.token h.payout h.fee (game.wager_amount * 2) h.pot_is in
      omega (arith, ap (owed t) h.next, one, two, three, before, pot)

  -- A cancellation that ends in ok leaves what the escrow owes in every token unchanged.
  pub cancel_game-owed :
      (env : Env) (id : ℕ) (s : State) {r : Value × State}
      → cancel_game env id s ≡ ok r
      → owed t r.1 ≡ owed t s
  unfolding is_active get_game
  cancel_game-owed env id s e =
      let h = cancel_game-ok env id s e in
      let game = h.game in
      let back_a = credited game.player_a game.token h.refund s in
      let back_b = credited game.player_b game.token h.refund back_a in
      let one = owed-credited t game.player_a game.token h.refund s in
      let two = owed-credited t game.player_b game.token h.refund back_a in
      let three = owed-charged t game.token (h.fee * 2) back_b in
      let closed = record game { status = cancelled } in
      let four = owed-set_game t id closed (charged game.token (h.fee * 2) back_b) in
      let before = active_weight t id game s h.found h.was_active in
      let part = share_split t game.token h.refund h.fee game.wager_amount h.refund_is in
      let stakes = share_double t game.token game.wager_amount in
      let fees = share_double t game.token h.fee in
      omega (arith, ap (owed t) h.next, one, two, three, four, before, part, stakes, fees)

  module _ (c : Crypto) (ext : External) (env : Env) (ch : Chain ext) where
    pub deposit-owed :
        (token : String) (amount : ℕ) (pubkey : Bytes) {r : Value × Chain ext}
        → deposit c ext env token amount pubkey ch ≡ ok r
        → owed t r.1.wager ≡ owed t ch.wager + share t token amount
    deposit-owed token amount pubkey e =
        ap (owed t) (deposit-ok c ext env ch token amount pubkey e).next
        ∙ owed-credited t pubkey token amount ch.wager

    pub register_wallet-owed :
        (wallet : String) (pubkey : Bytes) (sig : SigAuth) {r : Value × Chain ext}
        → register_wallet c ext env wallet pubkey sig ch ≡ ok r
        → owed t r.1.wager ≡ owed t ch.wager
    unfolding owed get_accumulated_fees
    register_wallet-owed wallet pubkey sig e =
        ap (owed t) (register_wallet-ok c ext env ch wallet pubkey sig e).next

    pub withdraw-owed :
        (token name : String) (amount : ℕ) (recipient : String) (pubkey : Bytes) (sig : SigAuth)
        {r : Value × Chain ext}
        → withdraw c ext env token name amount recipient pubkey sig ch ≡ ok r
        → (payout : ℕ) × (ext.transfer_as_contract token name payout env.contract
              (recipient_of c ext env ch recipient pubkey)
              ch.ledger
            ≡ ok r.1.ledger)
          × (owed t r.1.wager + share t token payout ≡ owed t ch.wager)
    unfolding owed get_accumulated_fees get_balance
    withdraw-owed token name amount recipient pubkey sig e =
        let h = withdraw-ok c ext env ch token name amount recipient pubkey sig e in
        let used =
          mark_used (withdrawal_hash c ext env ch token amount recipient pubkey sig) pubkey
            ch.wager in
        let one = owed-debited t pubkey token amount used h.funds in
        let two = owed-charged t token h.fee (debited pubkey token amount used) in
        let part = share_split t token h.payout h.fee amount h.payout_is in
        (h.payout, h.moved, omega (arith, ap (owed t) h.next, one, two, part))

    pub sweep_fees-owed :
        (token name : String) {r : Value × Chain ext}
        → sweep_fees c ext env token name ch ≡ ok r
        → owed t r.1.wager + share t token (get_accumulated_fees token ch.wager) ≡ owed t ch.wager
    sweep_fees-owed token name e =
        let h = sweep_fees-ok c ext env ch token name e in
        omega (arith, ap (owed t) h.next, owed-swept t token ch.wager)
