-- ===== src/Storage/Kv/Begin.antt =====
-- The pages that a transaction can reuse, against the open readers and the durable version.
use sqldb.Base.{ℕ, ◌^◌, ◌<◌, ◌≤◌}
use sqldb.Storage.FreeList.{FreeList}
use sqldb.Storage.ReaderHeap.Order.{Ordered}
use sqldb.Storage.Kv.{Kv}

-- The readers are in heap order, and neither a reader nor the durable version is ahead of the latest one,
-- which is below 2^63.
pub record Current (kv : Kv) : Type 0 where
  pub ordered : Ordered kv.readers
  pub seen : (r : ℕ) → kv.readers.version r ≤ kv.version
  pub durable : kv.durable_version ≤ kv.version
  pub small : kv.version < 2 ^ 63
