-- ===== src/Tests/World.antt =====
-- A world in which every contract that the wallet calls answers `ok`.
use pillar_wallets_xyz.Base.{ℕ, String, none, some}
use pillar_wallets_xyz.Clarity.Outcome.{Outcome, ok, err, abort}
use pillar_wallets_xyz.Safe.External.{External, Env, Account, ChosenCall, LeavesSafe}
use pillar_wallets_xyz.Safe.Entry.{Entry}
use pillar_wallets_xyz.Safe.Reentry.{Behaviour, ends, calls}

-- The world counts nothing and refuses nothing.
abbrev pub calm : External
calm = record {
  World = ℕ;
  sbtc_balance = λ w. some 0;
  chosen = λ call account. ok account;
  core = λ call w. ok w;
  send_stx = λ allowance amount to memo w. ok w;
  send_sbtc = λ allowance amount to memo w. ok w;
  initiate_withdrawal = λ allowance amount to fee w. ok w;
  pox = λ allowance call w. ok w;
  locked_ustx = λ w. 0;
  mint_ect = λ n to w. ok w;
  burn_ect = λ n to w. ok w;
  withdrawal_of_buff = λ b. none;
}

abbrev pub wallet : String
wallet = "SPV9K21TBFAK4KNRJXF5DFP8N7W46G4V9RCJDC22.juice-safe-v7"

abbrev pub at_block : String → ℕ → Env
at_block sender height = record {
  tx_sender = sender;
  burn_block_height = height;
  chain_id = 1;
  current_contract = wallet;
}

pub calm-LeavesSafe : LeavesSafe calm
calm-LeavesSafe = record { same = λ call a b e. cc }

-- A station that calls an entry point of the wallet back, whatever that answers, and then ends.
abbrev pub calling_back : Env → Entry → ChosenCall → Account ℕ → Behaviour ℕ
calling_back env entry call a = calls a.world env entry (λ done s w. ends (ok w))

-- The end of a call, and the state it began with where it failed.
abbrev pub after : {S : Type 0} → S → Outcome (Unit {0} × S) → Unit {0} × S
after s (ok r) = r
after s (err e) = (tt, s)
after s abort = (tt, s)
