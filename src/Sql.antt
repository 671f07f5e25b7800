-- ===== src/Sql.antt =====
-- What the SQL engine makes of a statement's syntax tree (src/sql/engine.rs).
pub mod Syntax
pub mod Answer
pub mod Literals
pub mod Predicates
pub mod Tables
pub mod Plans
pub mod Typed
pub mod Evaluates
pub mod Tests
