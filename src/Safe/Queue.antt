-- ===== src/Safe/Queue.antt =====
-- What the pending operations of juice-safe-v7.clar promise, without their representation: a queue
-- of delayed payments in which each waits, is vetoed, or is done.
pub mod Inversion
pub mod Rules
pub mod Payments
pub mod Orders
pub mod Refines
pub mod Closed
pub mod Final
use pillar_wallets_xyz.Base.{
  ℕ, ◌+◌, ◌≤◌, ◌≡◌, ◌≢◌, ◌⊎◌, String, Bool, false, Option, none, some, ◌==◌, nat_eq, if◌then◌else◌,
}
use pillar_wallets_xyz.Safe.State.{Safe, Operation, get_pending_operation}
use pillar_wallets_xyz.Safe.External.{Env}

pub data Phase : Type 0 where
  waiting vetoed done : Phase

pub record Item : Type 0 where
  pub amount : ℕ
  pub recipient : String
  pub ready : ℕ
  pub by_passkey : Bool
  pub phase : Phase

pub record Queue : Type 0 where
  pub next : ℕ
  pub item : ℕ → Option Item
  pub locked : Bool

abbrev pub put : ℕ → Item → Queue → Queue
put id p q = record q { item = λ j. if id == j then some p else q.item j }

-- Who may carry an operation out: an admin once it is ready, or the passkey where the queue is
-- not locked and the passkey did not order it.
abbrev pub Route : Env → Queue → Item → Type 0
Route env q p = (p.ready ≤ env.burn_block_height) ⊎ ((p.by_passkey ≡ false) × (q.locked ≡ false))

pub data Step (env : Env) (q : Queue) : Queue → Type 0 where
  idle : Step env q q
  locks : (b : Bool) → Step env q (record q { locked = b })
  orders :
      (p : Item)
      → p.phase ≡ waiting
      → env.burn_block_height ≤ p.ready
      → Step env q (record (put q.next p q) { next = q.next + 1 })
  vetoes :
      (id : ℕ) (p : Item)
      → q.item id ≡ some p
      → p.phase ≢ done
      → Step env q (put id (record p { phase = vetoed }) q)
  pays :
      (id : ℕ) (p : Item)
      → q.item id ≡ some p
      → p.phase ≡ waiting
      → Route env q p
      → Step env q (put id (record p { phase = done }) q)

abbrev pub phase_of : Operation → Phase
phase_of op = if op.executed then done else (if op.vetoed then vetoed else waiting)

abbrev pub item_of : Operation → Item
item_of op = record {
  amount = op.amount;
  recipient = op.recipient;
  ready = op.execute_after;
  by_passkey = op.passkey_created;
  phase = phase_of op;
}

abbrev pub item_at : Option Operation → Option Item
item_at none = none
item_at (some op) = some (item_of op)

unfoldable pub view : Safe → Queue
view s = record {
  next = s.operation_nonce;
  item = λ id. item_at (get_pending_operation id s);
  locked = s.token_lock_enabled;
}
