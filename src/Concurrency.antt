-- ===== src/Concurrency.antt =====
-- Transactions and row locks (src/concurrency).
pub mod Transaction
pub mod LockManager
pub mod TransactionManager
pub mod Tests
