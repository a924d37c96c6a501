-- ===== src/Safe/Queue/Refines.antt =====
-- Every entry point of juice-safe-v7.clar refines the queue.
use pillar_wallets_xyz.Clarity.Contract.Keeps.{Keeps}
use pillar_wallets_xyz.Safe.Entry.{Entry}
use pillar_wallets_xyz.Safe.Frame.Entries
use pillar_wallets_xyz.Safe.Queue.Payments
use pillar_wallets_xyz.Safe.Queue.Orders
