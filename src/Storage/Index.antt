-- ===== src/Storage/Index.antt =====
-- The pages of the B+ tree (src/storage/index).
pub mod Header
pub mod Leaf
pub mod Internal
pub mod Search
pub mod Words
pub mod Entry
pub mod Insert
