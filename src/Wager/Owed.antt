-- ===== src/Wager/Owed.antt =====
-- What the escrow of game-wager-v2.clar owes in a token: the players' balances, two stakes for
-- each active game, and the fees not yet swept.
use mathlib.Core.Path.{subst}
use pillar_wallets_xyz.Base.{
  arith, ℕ, ◌+◌, ◌-◌, ◌*◌, ◌≤◌, ◌≡◌, refl, String, Bool, true, false, Bytes, lookup, nat_eq,
  string_eq, ◌==◌, if◌then◌else◌, inl, inr, Option-cases, Bool-cases, ==_eq,
}
use pillar_wallets_xyz.Base.Keys.{lookup-insert, sum_by, weight_at, sum_by-insert}
use pillar_wallets_xyz.Wager.State.{
  State, Game, BalanceKey, get_balance, get_game, get_accumulated_fees, key_eq,
}
use pillar_wallets_xyz.Wager.Escrow.{is_active}
use pillar_wallets_xyz.Wager.Effects.{set_balance, credited, debited, charged, set_game, set_fees}

-- `n` of `token`, counted in `t`.
abbrev pub share : String → String → ℕ → ℕ
share t token n = if token == t then n else 0

abbrev pub balance_weight : String → BalanceKey → ℕ → ℕ
balance_weight t k n = share t k.token n

abbrev pub stake_of : Bool → String → Game → ℕ
stake_of true t game = share t game.token (game.wager_amount * 2)
stake_of false t game = 0

abbrev pub game_weight : String → ℕ → Game → ℕ
game_weight t id game = stake_of (is_active game.status) t game

module _ (t : String) where
  unfoldable pub owed : State → ℕ
  owed s =
      sum_by (balance_weight t) s.balances
      + sum_by (game_weight t) s.games
      + get_accumulated_fees t s

  share_zero : (token : String) → 0 ≡ share t token 0
  share_zero token = elim (Bool-cases (token == t)) [
    | inl same ↦ rw same refl
    | inr other ↦ rw other refl
  ]

  pub share_add :
      (token : String) (a b : ℕ) → share t token (a + b) ≡ share t token a + share t token b
  share_add token a b = elim (Bool-cases (token == t)) [
    | inl same ↦ rw same refl
    | inr other ↦ rw other refl
  ]

  old_balance :
      (pubkey : Bytes) (token : String) (s : State)
      → weight_at
          (balance_weight t)
          (record { pubkey = pubkey; token = token })
          (lookup (record { pubkey = pubkey; token = token }) s.balances)
        ≡ share t token (get_balance pubkey token s)
  unfolding get_balance
  old_balance pubkey token s =
      elim (Option-cases (lookup (record { pubkey = pubkey; token = token }) s.balances)) [
        | inl missing ↦ rw missing (share_zero token)
        | inr (n, found) ↦ rw found refl
      ]

  owed-set_balance :
      (pubkey : Bytes) (token : String) (n : ℕ) (s : State)
      → owed (set_balance pubkey token n s) + share t token (get_balance pubkey token s)
        ≡ owed s + share t token n
  unfolding owed get_accumulated_fees
  owed-set_balance pubkey token n s =
      let key : BalanceKey = record { pubkey = pubkey; token = token } in
      let sum = sum_by-insert (balance_weight t) key n s.balances in
      omega (arith, sum, old_balance pubkey token s)

  pub owed-credited :
      (pubkey : Bytes) (token : String) (n : ℕ) (s : State)
      → owed (credited pubkey token n s) ≡ owed s + share t token n
  owed-credited pubkey token n s = omega (
    arith,
    owed-set_balance pubkey token (get_balance pubkey token s + n) s,
    share_add token (get_balance pubkey token s) n,
  )

  pub owed-debited :
      (pubkey : Bytes) (token : String) (n : ℕ) (s : State)
      → n ≤ get_balance pubkey token s
      → owed (debited pubkey token n s) + share t token n ≡ owed s
  owed-debited pubkey token n s le =
      let rest = get_balance pubkey token s - n in
      let whole : rest + n ≡ get_balance pubkey token s = omega arith in
      let split : share t token (get_balance pubkey token s)
          ≡ share t token rest + share t token n =
        subst (λ m. share t token m ≡ share t token rest + share t token n) whole
          (share_add token rest n) in
      omega (arith, owed-set_balance pubkey token rest s, split)

  owed-set_fees :
      (token : String) (n : ℕ) (s : State)
      → owed (set_fees token n s) + share t token (get_accumulated_fees token s)
        ≡ owed s + share t token n
  unfolding owed get_accumulated_fees
  owed-set_fees token n s = elim (Bool-cases (token == t)) [
    | inl same ↦
        let eq : token ≡ t = ==_eq token t same in
        let found = lookup-insert token t n s.accumulated_fees in rw (found, same, eq) (omega arith)
    | inr other ↦ rw (lookup-insert token t n s.accumulated_fees, other) (omega arith)
  ]

  pub owed-charged :
      (token : String) (n : ℕ) (s : State) → owed (charged token n s) ≡ owed s + share t token n
  owed-charged token n s = omega (
    arith,
    owed-set_fees token (get_accumulated_fees token s + n) s,
    share_add token (get_accumulated_fees token s) n,
  )

  pub owed-swept :
      (token : String) (s : State)
      → owed (set_fees token 0 s) + share t token (get_accumulated_fees token s) ≡ owed s
  owed-swept token s = omega (arith, owed-set_fees token 0 s, share_zero token)

  -- A new game, or one that changes its status.
  pub owed-set_game :
      (id : ℕ) (game : Game) (s : State)
      → owed (set_game id game s) + weight_at (game_weight t) id (get_game id s)
        ≡ owed s + game_weight t id game
  unfolding owed get_game get_accumulated_fees
  owed-set_game id game s = omega (arith, sum_by-insert (game_weight t) id game s.games)
