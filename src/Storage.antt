-- ===== src/Storage.antt =====
-- The storage layer (include/storage, src/storage).
pub mod Cmp
pub mod Visits
pub mod SortedMap
pub mod Node
pub mod PageManager
pub mod Tree
pub mod FreeList
pub mod ReaderHeap
pub mod Kv
pub mod Iter
mod Tests
