-- ===== src/Wager/Entry/Close.antt =====
-- `resolve-game` and `cancel-game`.
use mathlib.Core.Path.{subst, ap, ap₂, sym, ◌∙◌}
use pillar_wallets_xyz.Base.{
  arith, ℕ, ◌+◌, ◌*◌, ◌/◌, ◌≡◌, true, some, Bytes, bytes_beq, insert, nat_eq, string_eq, bytes_eq,
  ◌==◌, ◌||◌,
}
use pillar_wallets_xyz.Clarity.Outcome.{ok, mul_uint, sub_uint}
use pillar_wallets_xyz.Clarity.Value.{Value}
use pillar_wallets_xyz.Wager.State.{State, Game, resolved, cancelled, get_game, key_eq}
use pillar_wallets_xyz.Wager.Escrow.{
  Env, is_active, fee_of, credit_balance, add_fees, may_cancel, refund_players, resolve_game,
  cancel_game,
}
use pillar_wallets_xyz.Wager.Effects.{
  fee_of-ok, ok_inj, bind-ok, asserts-ok, unwrap-ok, mul_uint-ok, sub_uint-ok, credit_balance-ok,
  add_fees-ok, credited, charged,
}

module _ (env : Env) (game_id : ℕ) (s : State) where
  abbrev pub closed : Game → State → State
  closed game s' = record s' { games = insert game_id game s'.games }

  abbrev pub resolved_game : Bytes → Game → Game
  resolved_game winner game = record game { status = resolved; winner = some winner }

  abbrev pub paid_out : Bytes → Game → ℕ → ℕ → State
  paid_out winner game payout fee =
      closed (resolved_game winner game)
        (charged game.token fee (credited winner game.token payout s))

  pub record IsResolved (winner : Bytes) (r : Value × State) : Type 0 where
    pub game : Game
    pub fee : ℕ
    pub payout : ℕ
    pub found : get_game game_id s ≡ some game
    pub by_oracle : env.tx_sender == s.oracle ≡ true
    pub was_active : is_active game.status ≡ true
    pub is_player : bytes_beq winner game.player_a || bytes_beq winner game.player_b ≡ true
    pub fee_is : fee ≡ game.wager_amount * 2 * s.fee_rate / 10000
    pub pot_is : payout + fee ≡ game.wager_amount * 2
    pub next : r.1 ≡ paid_out winner game payout fee

  pub resolve_game-ok :
      (winner : Bytes) {r : Value × State}
      → resolve_game env game_id winner s ≡ ok r
      → IsResolved winner r
  unfolding resolve_game
  resolve_game-ok winner {r} e =
      let (game, found, e1) = unwrap-ok (get_game game_id s) _ _ e in
      let (pot, doubled, e2) = bind-ok (mul_uint game.wager_amount 2) _ e1 in
      let (fee, taken, e3) = bind-ok (fee_of pot s.fee_rate) _ e2 in
      let (payout, left, e4) = bind-ok (sub_uint pot fee) _ e3 in
      let (by_oracle, e5) = asserts-ok (env.tx_sender == s.oracle) _ _ e4 in
      let (was_active, e6) = asserts-ok (is_active game.status) _ _ e5 in
      let (is_player, e7) =
        asserts-ok (bytes_beq winner game.player_a || bytes_beq winner game.player_b) _ _ e6 in
      let (s1, added, e8) = bind-ok (credit_balance winner game.token payout s) _ e7 in
      let (s2, charged_fee, last) = bind-ok (add_fees game.token fee s1) _ e8 in
      let pot_eq = mul_uint-ok game.wager_amount 2 doubled in
      let (payout_eq, fits) = sub_uint-ok pot fee left in
      let eq1 = credit_balance-ok winner game.token payout s added in
      let eq2 = add_fees-ok game.token fee s1 charged_fee in
      record {
        game = game;
        fee = fee;
        payout = payout;
        found = found;
        by_oracle = by_oracle;
        was_active = was_active;
        is_player = is_player;
        fee_is = subst (λ p. fee ≡ p * s.fee_rate / 10000) pot_eq (fee_of-ok pot s.fee_rate taken);
        pot_is = omega (arith, pot_eq, payout_eq, fits);
        next =
            ap (λ (p : Value × State). p.1) (sym (ok_inj last))
            ∙ ap (closed (resolved_game winner game)) (eq2 ∙ ap (charged game.token fee) eq1);
      }

  abbrev pub refunded : Game → ℕ → ℕ → State
  refunded game refund fees =
      closed (record game { status = cancelled })
        (charged game.token fees
          (credited game.player_b game.token refund (credited game.player_a game.token refund s)))

  refund_players-ok :
      (game : Game) (fee refund : ℕ) {r : Value × State}
      → refund_players game_id game fee refund s ≡ ok r
      → r.1 ≡ refunded game refund (fee * 2)
  unfolding refund_players
  refund_players-ok game fee refund {r} e =
      let (s1, added_a, e7) = bind-ok (credit_balance game.player_a game.token refund s) _ e in
      let (s2, added_b, e8) = bind-ok (credit_balance game.player_b game.token refund s1) _ e7 in
      let (fees, doubled, e9) = bind-ok (mul_uint fee 2) _ e8 in
      let (s3, charged_fees, last) = bind-ok (add_fees game.token fees s2) _ e9 in
      let eq1 = credit_balance-ok game.player_a game.token refund s added_a in
      let eq2 = credit_balance-ok game.player_b game.token refund s1 added_b in
      let eq3 = add_fees-ok game.token fees s2 charged_fees in
      let fees_eq = mul_uint-ok fee 2 doubled in
      let both = eq2 ∙ ap (credited game.player_b game.token refund) eq1 in
      ap (λ (p : Value × State). p.1) (sym (ok_inj last))
      ∙ ap (closed (record game { status = cancelled }))
          (eq3 ∙ ap₂ (charged game.token) fees_eq both)

  pub record IsCancelled (r : Value × State) : Type 0 where
    pub game : Game
    pub fee : ℕ
    pub refund : ℕ
    pub found : get_game game_id s ≡ some game
    pub was_active : is_active game.status ≡ true
    pub allowed : may_cancel env game s ≡ ok true
    pub fee_is : fee ≡ game.wager_amount * s.withdraw_fee_rate / 10000
    pub refund_is : refund + fee ≡ game.wager_amount
    pub next : r.1 ≡ refunded game refund (fee * 2)

  pub cancel_game-ok : {r : Value × State} → cancel_game env game_id s ≡ ok r → IsCancelled r
  unfolding cancel_game
  cancel_game-ok {r} e =
      let (game, found, e1) = unwrap-ok (get_game game_id s) _ _ e in
      let (fee, taken, e2) = bind-ok (fee_of game.wager_amount s.withdraw_fee_rate) _ e1 in
      let (refund, left, e3) = bind-ok (sub_uint game.wager_amount fee) _ e2 in
      let (was_active, e4) = asserts-ok (is_active game.status) _ _ e3 in
      let (allowed, may, e5) = bind-ok (may_cancel env game s) _ e4 in
      let (permitted, e6) = asserts-ok allowed _ _ e5 in
      let next = refund_players-ok game fee refund e6 in
      let (refund_eq, fits) = sub_uint-ok game.wager_amount fee left in
      record {
        game = game;
        fee = fee;
        refund = refund;
        found = found;
        was_active = was_active;
        allowed = subst (λ b. may_cancel env game s ≡ ok b) permitted may;
        fee_is = fee_of-ok game.wager_amount s.withdraw_fee_rate taken;
        refund_is = omega (arith, refund_eq, fits);
        next = next;
      }
