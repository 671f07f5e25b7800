-- ===== src/Storage.antt =====
-- The storage engine (src/storage).
pub mod Rid
pub mod Tuple
pub mod Disk
pub mod Replacer
pub mod Page
pub mod BufferPool
pub mod SlottedPage
pub mod Tests
pub mod Index
pub mod PoolManager
pub mod PageAccess
pub mod TableHeap
pub mod BPlusTree
