-- ===== src/Execution.antt =====
-- The execution engine (src/execution).
pub mod Expression
pub mod Vectorized
pub mod Tests
pub mod Executor
pub mod SeqScan
pub mod IndexScan
pub mod Insert
pub mod Delete
pub mod Update
