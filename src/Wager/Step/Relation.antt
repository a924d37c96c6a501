-- ===== src/Wager/Step/Relation.antt =====
-- Relations between the states before and after a call of game-wager-v2.clar.
use mathlib.Core.Path.{subst}
use pillar_wallets_xyz.Base.{
  ℕ, ◌+◌, ◌≤◌, ◌<◌, ◌≡◌, ◌⊎◌, refl, nat_eq, string_eq, bytes_eq, Bool, true, false, none, some,
  Bytes, sym, ap, ==_refl, ◌==◌, ◌||◌, if◌then◌else◌, insert, lookup, bytes_beq,
}
use pillar_wallets_xyz.Base.Keys.{lookup-insert}
use pillar_wallets_xyz.Clarity.Outcome.{Outcome, ok}
use pillar_wallets_xyz.Clarity.Value.{Value}
use pillar_wallets_xyz.Webauthn.Crypto.{Crypto}
use pillar_wallets_xyz.Wager.State.{
  State, Game, active, resolved, cancelled, get_game, is_signature_used, is_some,
}
use pillar_wallets_xyz.Wager.External.{External}
use pillar_wallets_xyz.Wager.Escrow.{Env, Chain, on_state, is_active}
use pillar_wallets_xyz.Wager.Effects.{bind-ok, ok_inj, mark_used}

-- A game as `resolve-game` and `cancel-game` leave it.
pub data IsClosing (game : Game) : Game → Type 0 where
  resolves :
      (winner : Bytes)
      → bytes_beq winner game.player_a || bytes_beq winner game.player_b ≡ true
      → IsClosing game (record game { status = resolved; winner = some winner })
  cancels : IsClosing game (record game { status = cancelled })

pub data GamesStep (s s' : State) : Type 0 where
  kept : s'.game_nonce ≡ s.game_nonce → s'.games ≡ s.games → GamesStep s s'
  opened :
      (game : Game)
      → game.status ≡ active
      → game.winner ≡ none
      → bytes_beq game.player_a game.player_b ≡ false
      → 0 < game.wager_amount
      → s'.game_nonce ≡ s.game_nonce + 1
      → s'.games ≡ insert s.game_nonce game s.games
      → GamesStep s s'
  closed :
      (id : ℕ) (game game' : Game)
      → get_game id s ≡ some game
      → is_active game.status ≡ true
      → IsClosing game game'
      → s'.game_nonce ≡ s.game_nonce
      → s'.games ≡ insert id game' s.games
      → GamesStep s s'

abbrev pub RatesStep : State → State → Type 0
RatesStep s s' =
    ((s'.fee_rate ≡ s.fee_rate) ⊎ (s'.fee_rate ≤ 2000))
    × ((s'.withdraw_fee_rate ≡ s.withdraw_fee_rate) ⊎ (s'.withdraw_fee_rate ≤ 1000))

abbrev pub StaysUsed : Bytes → State → State → Type 0
StaysUsed hash s s' = is_signature_used hash s ≡ true → is_signature_used hash s' ≡ true

pub mark_used-StaysUsed :
    (hash other pubkey : Bytes) (s : State) → StaysUsed hash s (mark_used other pubkey s)
unfolding is_signature_used
mark_used-StaysUsed hash other pubkey s used =
    subst (λ o. is_some o ≡ true) (sym (lookup-insert other hash pubkey s.used_signatures))
      (kept_or_new (other == hash))
  where
    kept_or_new :
        (b : Bool) → is_some (if b then some pubkey else lookup hash s.used_signatures) ≡ true
    kept_or_new true = refl
    kept_or_new false = used

pub mark_used-used :
    (hash pubkey : Bytes) (s : State) → is_signature_used hash (mark_used hash pubkey s) ≡ true
unfolding is_signature_used
mark_used-used hash pubkey s =
    subst (λ o. is_some o ≡ true) (sym (lookup-insert hash hash pubkey s.used_signatures))
      (rw (==_refl hash) refl)

module _ (c : Crypto) (ext : External) (env : Env) where
  -- A relation between the states that an entry point keeps, kept by `on_state`.
  pub on_state-keeps :
      (R : State → State → Type 0) (f : State → Outcome (Value × State)) (ch : Chain ext)
      {r : Value × Chain ext}
      → ((q : Value × State) → f ch.wager ≡ ok q → R ch.wager q.1)
      → on_state c ext env f ch ≡ ok r
      → R ch.wager r.1.wager
  on_state-keeps R f ch keeps e =
      let (q, ran, last) = bind-ok (f ch.wager) _ e in
      subst (R ch.wager) (ap (λ (p : Value × Chain ext). p.1.wager) (ok_inj last)) (keeps q ran)

  -- The same for a next state that is known.
  pub moved_to :
      (R : State → State → Type 0) (s : State) {s' s'' : State} → s' ≡ s'' → R s s'' → R s s'
  moved_to R s e = subst (R s) (sym e)
