-- ===== src/Wager/State.antt =====
-- The data variables, maps and constants of game-wager-v2.clar, and its read-only accessors.
use pillar_wallets_xyz.Base.{
  ℕ, ◌≡◌, ◌↔◌, String, Bool, true, false, ◌&&◌, Option, none, some, List, [], Bytes, bytes_beq,
  bytes_beq_iff, Eq, nat_eq, string_eq, bytes_eq, lookup, &&-true_iff, ap₂, ==_refl, ◌==◌,
}
-- The error codes of the contract.
pub mod Code

pub data Status : Type 0 where
  active resolved cancelled : Status

pub record Game : Type 0 where
  pub player_a : Bytes
  pub player_b : Bytes
  pub token : String
  pub wager_amount : ℕ
  pub status : Status
  pub winner : Option Bytes
  pub created_at : ℕ

pub record BalanceKey : Type 0 where
  pub pubkey : Bytes
  pub token : String

abbrev pub key_beq : BalanceKey → BalanceKey → Bool
key_beq k j = bytes_beq k.pubkey j.pubkey && (k.token == j.token)

pub key_beq_iff : (k j : BalanceKey) → (key_beq k j ≡ true) ↔ (k ≡ j)
key_beq_iff k j = (
  λ h.
      let both = (&&-true_iff (bytes_beq k.pubkey j.pubkey) (k.token == j.token)).0 h in
      ap₂ {C = BalanceKey} (λ p t. record { pubkey = p; token = t }) ((bytes_beq_iff _ _).0 both.0)
        ((string_eq.same_iff k.token j.token).0 both.1),
  λ e. rw e (
      (&&-true_iff (bytes_beq j.pubkey j.pubkey) (j.token == j.token)).1
        (==_refl j.pubkey, ==_refl j.token)),
)

instance abbrev pub key_eq : Eq BalanceKey
key_eq = record { same = key_beq; same_iff = key_beq_iff }

pub record State : Type 0 where
  pub oracle : String
  pub game_nonce : ℕ
  pub fee_rate : ℕ
  pub withdraw_fee_rate : ℕ
  pub treasury : String
  pub balances : List (BalanceKey × ℕ)
  pub used_signatures : List (Bytes × Bytes)
  pub games : List (ℕ × Game)
  pub accumulated_fees : List (String × ℕ)
  pub whitelisted_tokens : List (String × Bool)
  pub pubkey_wallet : List (Bytes × String)

-- The values at deployment.
unfoldable pub initial : String → State
initial deployer = record {
  oracle = "SP28MP1HQDJWQAFSQJN2HBAXBVP7H7THD1W2NYZVK";
  game_nonce = 0;
  fee_rate = 500;
  withdraw_fee_rate = 100;
  treasury = deployer;
  balances = [];
  used_signatures = [];
  games = [];
  accumulated_fees = [];
  whitelisted_tokens = [];
  pubkey_wallet = [];
}

-- `(default-to d o)`
abbrev pub default_to {ℓ} : {A : Type ℓ} → A → Option A → A
default_to d none = d
default_to d (some a) = a

unfoldable pub get_balance : Bytes → String → State → ℕ
get_balance pubkey token s =
    default_to 0 (lookup (record { pubkey = pubkey; token = token }) s.balances)

unfoldable pub get_game : ℕ → State → Option Game
get_game game_id s = lookup game_id s.games

-- `(is-some o)`
abbrev pub is_some {ℓ} : {A : Type ℓ} → Option A → Bool
is_some none = false
is_some (some a) = true

unfoldable pub is_signature_used : Bytes → State → Bool
is_signature_used message_hash s = is_some (lookup message_hash s.used_signatures)

unfoldable pub get_accumulated_fees : String → State → ℕ
get_accumulated_fees token s = default_to 0 (lookup token s.accumulated_fees)

unfoldable pub is_token_whitelisted : String → State → Bool
is_token_whitelisted token s = default_to false (lookup token s.whitelisted_tokens)

unfoldable pub get_registered_wallet : Bytes → State → Option String
get_registered_wallet pubkey s = lookup pubkey s.pubkey_wallet
