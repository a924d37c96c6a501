-- ===== src/Wager/External.antt =====
-- The contracts that the escrow calls through traits, SIP-010 tokens and pillar wallets, with
-- the balances that they keep. `(try! (contract-call? ...))` passes their errors on.
use pillar_wallets_xyz.Base.{ℕ, ◌+◌, ◌≤◌, ◌≡◌, ◌≢◌, String, Bytes}
use pillar_wallets_xyz.Clarity.Outcome.{Outcome, ok}

pub record External : Type 1 where
  pub Ledger : Type 0
  pub held : Ledger → String → String → ℕ
  -- `(contract-call? token transfer amount sender recipient none)`
  pub transfer : String → ℕ → String → String → Ledger → Outcome Ledger
  -- The same as the contract, `(as-contract? ((with-ft token token-name amount)) ...)`: it also
  -- fails where more than the allowance leaves.
  pub transfer_as_contract : String → String → ℕ → String → String → Ledger → Outcome Ledger
  -- `(contract-call? wallet is-admin-pubkey pubkey)`
  pub is_admin_pubkey : String → Bytes → Ledger → Outcome Ledger

-- What the escrow relies on, for its own principal `contract`: a transfer in adds the amount to
-- its holdings, a payout takes at most the allowance, and nothing else lowers them.
pub record IsSip010 (ext : External) (contract : String) : Type 0 where
  pub transfer_in :
      (token : String) (amount : ℕ) (sender : String) (l l' : ext.Ledger)
      → sender ≢ contract
      → ext.transfer token amount sender contract l ≡ ok l'
      → ext.held l token contract + amount ≤ ext.held l' token contract
  pub transfer_in_others :
      (token : String) (amount : ℕ) (sender other : String) (l l' : ext.Ledger)
      → ext.transfer token amount sender contract l ≡ ok l'
      → other ≢ token
      → ext.held l other contract ≤ ext.held l' other contract
  pub payout :
      (token name : String) (amount : ℕ) (recipient : String) (l l' : ext.Ledger)
      → ext.transfer_as_contract token name amount contract recipient l ≡ ok l'
      → ext.held l token contract ≤ ext.held l' token contract + amount
  pub payout_others :
      (token name : String) (amount : ℕ) (recipient other : String) (l l' : ext.Ledger)
      → ext.transfer_as_contract token name amount contract recipient l ≡ ok l'
      → other ≢ token
      → ext.held l other contract ≤ ext.held l' other contract
  pub admin_check :
      (wallet : String) (pubkey : Bytes) (token : String) (l l' : ext.Ledger)
      → ext.is_admin_pubkey wallet pubkey l ≡ ok l'
      → ext.held l token contract ≤ ext.held l' token contract
