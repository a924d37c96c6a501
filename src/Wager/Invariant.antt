-- ===== src/Wager/Invariant.antt =====
-- The invariant of game-wager-v2.clar, and what no later call undoes.
use mathlib.Core.Path.{subst, subst₂}
use pillar_wallets_xyz.Base.{
  arith, ℕ, ◌+◌, ◌≤◌, ◌<◌, ◌≡◌, ◌⊎◌, refl, nat_eq, string_eq, bytes_eq, String, true, false, Option,
  none, some, Bytes, sym, List, [], ◌∷◌, inl, inr, ◌||◌, bytes_beq,
}
use pillar_wallets_xyz.Base.Keys.{AllEntries, insert-AllEntries, lookup-AllEntries, AllEntries-mono}
use pillar_wallets_xyz.Clarity.Outcome.{Outcome, ok, err, abort}
use pillar_wallets_xyz.Clarity.Value.{Value}
use pillar_wallets_xyz.Webauthn.Crypto.{Crypto}
use pillar_wallets_xyz.Wager.State.{
  State, Game, Status, active, resolved, cancelled, get_game, initial,
}
use pillar_wallets_xyz.Wager.External.{External}
use pillar_wallets_xyz.Wager.Escrow.{Env, Chain, Call, exec, settled, run, is_active}
use pillar_wallets_xyz.Wager.Step.Relation.{
  GamesStep, kept, opened, closed, IsClosing, resolves, cancels,
}
use pillar_wallets_xyz.Wager.Step.Games.{exec-GamesStep}
use pillar_wallets_xyz.Wager.Step.Rates.{exec-RatesStep}

-- Only a resolved game has a winner, one of its players.
abbrev pub WinnerFits : Status → Bytes → Bytes → Option Bytes → Type 0
WinnerFits active a b winner = winner ≡ none
WinnerFits cancelled a b winner = winner ≡ none
WinnerFits resolved a b none = ⊥
WinnerFits resolved a b (some winner) = bytes_beq winner a || bytes_beq winner b ≡ true

pub record IsGame (nonce id : ℕ) (game : Game) : Type 0 where
  pub numbered : id < nonce
  pub distinct : bytes_beq game.player_a game.player_b ≡ false
  pub positive : 0 < game.wager_amount
  pub winner_fits : WinnerFits game.status game.player_a game.player_b game.winner

pub record IsValid (s : State) : Type 0 where
  pub fee_rate : s.fee_rate ≤ 2000
  pub withdraw_fee_rate : s.withdraw_fee_rate ≤ 1000
  pub games : AllEntries (IsGame s.game_nonce) s.games

pub initial-IsValid : (deployer : String) → IsValid (initial deployer)
unfolding initial
initial-IsValid deployer = record {
  fee_rate = omega arith;
  withdraw_fee_rate = omega arith;
  games = tt;
}

pub closing-IsGame :
    (nonce id : ℕ) (game game' : Game)
    → is_active game.status ≡ true
    → IsClosing game game'
    → IsGame nonce id game
    → IsGame nonce id game'
unfolding is_active
closing-IsGame nonce id game game' was_active (resolves winner player) g = record {
  numbered = g.numbered;
  distinct = g.distinct;
  positive = g.positive;
  winner_fits = player;
}
closing-IsGame nonce id game game' was_active cancels g = record {
  numbered = g.numbered;
  distinct = g.distinct;
  positive = g.positive;
  winner_fits = no_winner game.status was_active g.winner_fits;
}
  where
    no_winner :
        (status : Status)
        → is_active status ≡ true
        → WinnerFits status game.player_a game.player_b game.winner
        → game.winner ≡ none
    no_winner active h fits = fits
    no_winner resolved h fits = cc
    no_winner cancelled h fits = cc

later-IsGame : (nonce id : ℕ) (game : Game) → IsGame nonce id game → IsGame (nonce + 1) id game
later-IsGame nonce id game g = record {
  numbered = omega (arith, g.numbered);
  distinct = g.distinct;
  positive = g.positive;
  winner_fits = g.winner_fits;
}

GamesStep-IsGame :
    (s s' : State)
    → GamesStep s s'
    → AllEntries (IsGame s.game_nonce) s.games
    → AllEntries (IsGame s'.game_nonce) s'.games
unfolding get_game
GamesStep-IsGame s s' (kept nonce games) all =
    subst₂ (λ n m. AllEntries (IsGame n) m) (sym nonce) (sym games) all
GamesStep-IsGame s s' (opened game is_new no_winner distinct positive nonce games) all =
    subst₂ (λ n m. AllEntries (IsGame n) m) (sym nonce) (sym games)
      (insert-AllEntries (IsGame (s.game_nonce + 1)) s.game_nonce game s.games fresh (
        AllEntries-mono (IsGame s.game_nonce) (IsGame (s.game_nonce + 1)) s.games
          (later-IsGame s.game_nonce) all))
  where
    fresh : IsGame (s.game_nonce + 1) s.game_nonce game
    fresh = record {
      numbered = omega arith;
      distinct = distinct;
      positive = positive;
      winner_fits =
          subst (λ st. WinnerFits st game.player_a game.player_b game.winner) (sym is_new)
            no_winner;
    }
GamesStep-IsGame s s' (closed id game game' found was_active closing nonce games) all =
    let before = lookup-AllEntries (IsGame s.game_nonce) id s.games all found in
    subst₂ (λ n m. AllEntries (IsGame n) m) (sym nonce) (sym games)
      (insert-AllEntries (IsGame s.game_nonce) id game' s.games
        (closing-IsGame s.game_nonce id game game' was_active closing before) all)

bounded :
    (bound before after : ℕ) → (after ≡ before) ⊎ (after ≤ bound) → before ≤ bound → after ≤ bound
bounded bound before after (inl same) h = omega (arith, same, h)
bounded bound before after (inr small) h = small

-- A property of chains that every call in `ok` keeps is kept by every run.
settled-keeps :
    {A : Type 0} (P : A → Type 0) (a : A) (o : Outcome (Value × A))
    → ((r : Value × A) → o ≡ ok r → P r.1)
    → P a
    → P (settled a o)
settled-keeps P a (ok r) after h = after r refl
settled-keeps P a (err n) after h = h
settled-keeps P a abort after h = h

module _ (c : Crypto) (ext : External) where
  pub exec-IsValid :
      (env : Env) (call : Call) (ch : Chain ext) {r : Value × Chain ext}
      → exec c ext env call ch ≡ ok r
      → IsValid ch.wager
      → IsValid r.1.wager
  exec-IsValid env call ch {r} e valid =
      let rates = exec-RatesStep c ext env call ch e in
      record {
        fee_rate = bounded 2000 ch.wager.fee_rate _ rates.0 valid.fee_rate;
        withdraw_fee_rate =
            bounded 1000 ch.wager.withdraw_fee_rate _ rates.1 valid.withdraw_fee_rate;
        games =
            GamesStep-IsGame ch.wager r.1.wager (exec-GamesStep c ext env call ch e) valid.games;
      }

  pub run-keeps :
      (P : Chain ext → Type 0)
      → ((env : Env) (call : Call) (ch : Chain ext) (r : Value × Chain ext)
          → exec c ext env call ch ≡ ok r
          → P ch
          → P r.1)
      → (calls : List (Env × Call)) (ch : Chain ext) → P ch
      → P (run c ext calls ch)
  unfolding run
  run-keeps P keeps [] ch h = h
  run-keeps P keeps ((env, call) ∷ calls) ch h =
      run-keeps P keeps calls (settled ch (exec c ext env call ch))
        (settled-keeps P ch (exec c ext env call ch) (λ r e. keeps env call ch r e h) h)

  -- If the rates are at most 2000 and 1000, and every stored game has a number below the nonce,
  -- two different players, a positive stake, and a winner exactly when it is resolved, one of
  -- the players, then the same holds after any sequence of calls.
  pub run-IsValid :
      (calls : List (Env × Call)) (ch : Chain ext)
      → IsValid ch.wager
      → IsValid (run c ext calls ch).wager
  run-IsValid = run-keeps (λ ch. IsValid ch.wager) (λ env call ch r e. exec-IsValid env call ch e)
