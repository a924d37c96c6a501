-- ===== src/Tests/Safe.antt =====
-- The theorems on juice-safe-v7.clar at concrete calls by the deployer and the owner.
use pillar_wallets_xyz.Base.{
  arith, ◌⊎◌, ℕ, ◌+◌, ◌<◌, ◌≡◌, ◌≢◌, refl, inr, true, false, none, some, List, [], ◌∷◌, codes,
  lookup, insert, delete,
}
use pillar_wallets_xyz.Clarity.Outcome.{ok, add_uint}
use pillar_wallets_xyz.Clarity.Contract.{◌>>=◌, lift, require, gets, modify, advance, panicking}
use pillar_wallets_xyz.Safe.State.{Operation, initial, get_pending_operation, is_admin}
use pillar_wallets_xyz.Safe.State.Code
use pillar_wallets_xyz.Safe.External.{Chain, read, update, outside, in_world}
use pillar_wallets_xyz.Safe.Operations.{
  update_activity, create_pending_operation, unlocked_passkey_or_admin, passkey_or_admin,
  veto_operation,
}
use pillar_wallets_xyz.Safe.Signature.{is_authorized, is_admin_calling}
use pillar_wallets_xyz.Safe.Spending.{add_spent_stx, would_exceed_stx_threshold, get_current_spent}
use pillar_wallets_xyz.Safe.Transfers.{stx_transfer_now, stx_transfer, queue}
use pillar_wallets_xyz.Safe.Ownership.{onboard, announce}
use pillar_wallets_xyz.Safe.Entry.{Entry, Tx, exec, run, setting}
use pillar_wallets_xyz.Safe.Queue.Final.{run-settled}
use pillar_wallets_xyz.Safe.Delay.{InRange}
use pillar_wallets_xyz.Safe.Delay.Run.{run-cooldown}
use pillar_wallets_xyz.Safe.External.{External, Setting, ChosenCall}
use pillar_wallets_xyz.Safe.Limits.{IsWithin, IsQueued, current_spent, stx_transfer-limit}
use pillar_wallets_xyz.Safe.Reentry.{Behaviour, reentrant}
use pillar_wallets_xyz.Safe.Hashes.{
  build_stake_stx_juice_pox5_hash, build_update_stake_stx_juice_hash, build_unstake_stx_juice_hash,
  build_execute_now_hash,
}
use pillar_wallets_xyz.Simulation.Juice.Challenge.{
  build_challenge, t_stake, t_update_stake, t_execute_now, t_unstake,
}
use pillar_wallets_xyz.Simulation.Juice.Agreement.{build_challenge-build_hashes}
use pillar_wallets_xyz.Tests.Toy.{toy, toy-IsLawful}
use pillar_wallets_xyz.Tests.World.{after, calm, calm-LeavesSafe, calling_back, at_block, wallet}

abbrev start : Chain calm
start = record { safe = initial 1000; world = 0 }

-- Onboarding, a transfer past the limit, and its veto.
abbrev vetoed_txs : List Tx
vetoed_txs =
    record {
      env = at_block Code.fakfun_deployer 1001;
      entry = Entry.onboard (codes "key") "SP1.owner" "SP1.recovery" 100 100 144;
    }
    ∷ record {
      env = at_block "SP1.owner" 1002;
      entry = Entry.stx_transfer 500 "SP1.friend" none none none;
    }
    ∷ record { env = at_block "SP1.owner" 1003; entry = Entry.veto_operation 0 none none }
    ∷ []

abbrev vetoed_operation : Operation
vetoed_operation = record {
  op_type = "stx-transfer";
  amount = 500;
  recipient = "SP1.friend";
  token = none;
  extension = none;
  payload = none;
  execute_after = 1146;
  executed = false;
  vetoed = true;
  passkey_created = false;
}

found : get_pending_operation 0 (run toy calm vetoed_txs start).safe ≡ some vetoed_operation
unfolding get_pending_operation run exec onboard announce initial stx_transfer veto_operation queue
    lookup insert delete ◌>>=◌ read update outside in_world is_authorized is_admin_calling is_admin
    create_pending_operation unlocked_passkey_or_admin passkey_or_admin update_activity
    would_exceed_stx_threshold get_current_spent add_uint lift require gets modify advance panicking
found = refl

given_out : (run toy calm vetoed_txs start).safe.operation_nonce ≡ 1
unfolding get_pending_operation run exec onboard announce initial stx_transfer veto_operation queue
    lookup insert delete ◌>>=◌ read update outside in_world is_authorized is_admin_calling is_admin
    create_pending_operation unlocked_passkey_or_admin passkey_or_admin update_activity
    would_exceed_stx_threshold get_current_spent add_uint lift require gets modify advance panicking
given_out = refl

-- A station that tries to veto as the wallet.
abbrev nosy : ChosenCall → Chain calm → Behaviour ℕ
nosy = calling_back (at_block wallet 1002) (Entry.veto_operation 0 none none)

abbrev nosy_station : External
nosy_station = reentrant toy calm nosy 3

run-settled_example :
    exec
      (setting toy nosy_station (at_block "SP1.owner" 2000))
      (Entry.execute_pending_stx_transfer 0 none)
      (run toy nosy_station vetoed_txs (run toy calm vetoed_txs start))
    ≢ ok (tt, start)
run-settled_example =
    run-settled toy calm nosy 3 (run toy calm vetoed_txs start) vetoed_txs
      (at_block "SP1.owner" 2000) (Entry.execute_pending_stx_transfer 0 none) 0 vetoed_operation
      (tt, start) (omega (arith, given_out)) found (inr refl) refl

run-cooldown_example :
    InRange (run toy nosy_station vetoed_txs start).safe.wallet_config.cooldown_period
run-cooldown_example = run-cooldown toy calm nosy 3 start 1000 vetoed_txs refl

abbrev owned : Chain calm
owned = (run toy calm vetoed_txs start)

abbrev by_owner : ℕ → Setting
by_owner height = setting toy calm (at_block "SP1.owner" height)

abbrev proposed : Unit {0} × Chain calm
proposed =
    after owned (exec (by_owner 1010) (Entry.stx_transfer 700 "SP1.shop" none none none) owned)

build_challenge-build_hashes_example :
    (build_challenge toy "SP1.wallet" (t_stake 1 2)
      ≡ build_stake_stx_juice_pox5_hash toy 1 "SP1.wallet" 2 1)
    × (build_challenge toy "SP1.wallet" (t_update_stake 1 2 3)
        ≡ build_update_stake_stx_juice_hash toy 1 "SP1.wallet" 2 3 1)
    × (build_challenge toy "SP1.wallet" (t_unstake 1)
        ≡ build_unstake_stx_juice_hash toy 1 "SP1.wallet" 1)
    × (build_challenge toy "SP1.wallet" (t_execute_now 1 4)
        ≡ build_execute_now_hash toy 1 "SP1.wallet" 4 1)
build_challenge-build_hashes_example =
    build_challenge-build_hashes toy toy-IsLawful "SP1.wallet" 1 2 3 4

abbrev paid : Unit {0} × Chain calm
paid = after owned (stx_transfer (by_owner 1010) 50 "SP1.shop" none none none owned)

stx_transfer-limit_example :
    IsWithin 1010 50 owned.safe paid.1.safe
    ⊎ ((owned.safe.wallet_config.stx_threshold < (current_spent 1010 owned.safe).stx + 50)
        × IsQueued "stx-transfer" 50 "SP1.shop" paid.1.safe)
unfolding get_pending_operation run exec onboard announce initial stx_transfer veto_operation queue
    lookup insert delete ◌>>=◌ read update outside in_world is_authorized is_admin_calling is_admin
    create_pending_operation unlocked_passkey_or_admin passkey_or_admin update_activity
    would_exceed_stx_threshold get_current_spent add_uint lift require gets modify advance panicking
    stx_transfer_now add_spent_stx
stx_transfer-limit_example =
    stx_transfer-limit (by_owner 1010) 50 "SP1.shop" none none none owned paid calm-LeavesSafe refl
