-- ===== src/Lib.antt =====
-- DIP-DB, an embedded database: a verification library for its Rust sources under src/.
--
-- The parts, from the disk up. The disk manager reads and writes pages of 4096 bytes in one file. A
-- buffer pool shard keeps some of them in frames: a page table, a free list and a replacer say which
-- frame holds what and which can be evicted. A page of a table is a slotted page: a header, an array
-- of slots and the tuples' bytes. A tuple is the bytes of a row, laid out by a schema. For each page
-- the catalog keeps a zone map, by which a scan skips pages that cannot satisfy a predicate. A table is
-- a chain of slotted pages, an index a B+ tree whose pages lie in the same pool; both work on a copy of
-- a page that they pin, change, write back and unpin. The catalog manager knows the tables by name and
-- keeps them in a metadata file. The executors scan, filter, insert, delete and update rows under locks.
-- Transactions take row locks from the lock manager and give them back when they end.
--
-- Which file models what (a Rust function keeps its name; `new` and the like stand in the module of
-- their type):
--   Base and its children: Boolean tests, list lemmas, `Result` (`fail` is `None` or `Err` passed on by
--     `?`, `panic` a failed `unwrap`, index or assertion), byte slices and little-endian words.
--   Types: src/types/mod.rs. Catalog/Column, Catalog/Schema, Catalog/Stats: src/catalog.
--   Storage/Disk, Storage/Page, Storage/Replacer, Storage/BufferPool, Storage/Tuple, Storage/Rid,
--     Storage/SlottedPage, Storage/PoolManager, Storage/TableHeap: the files of src/storage and
--     src/storage/table. Storage/PageAccess: how the heap and the tree open, save and close a page.
--   Storage/Index: the page layouts of src/storage/index; Storage/BPlusTree: the tree over them.
--   Catalog/Manager: src/catalog/catalog_manager.rs.
--   Execution and its children, one for each file: src/execution; Execution/Executor has the trait as
--     a record of operations, the context and the filter.
--   Sql and its children: src/sql/engine.rs and the kinds of error of src/errors.rs. Sql/Syntax is the
--     view of the external parser's trees that the engine has.
--   Concurrency/Transaction, Concurrency/LockManager, Concurrency/TransactionManager: src/concurrency.
--
-- State is passed explicitly: an operation returns its result beside the new state. A file is the list
-- of its bytes, a hash map an association list, a hash set a list without duplicates, a `String` the
-- list of its UTF-8 bytes. Machine words are natural numbers; where the code can leave the range of its
-- type, the model wraps around as a release build does. Loops are structural recursion on a list or a
-- count, or run on rounds: the binary search of an internal page, where one more round than the page
-- has entries is enough because each makes the range smaller; the walks from page to page of a table or
-- a tree, where one more round than the pages before the last is enough; and the executors' loops. Where
-- the rounds are used up, the result is `fail`, which these functions return otherwise only where an
-- executor's thread has to wait for a lock.
--
-- Concurrency: a mutex makes each method of the lock manager, up to a wait on a condition variable, one
-- step. `acquire_lock` ends with an answer or waiting; `resume_lock` is one round after the thread
-- woke. Concurrency/TransactionManager/Steps lets the steps of all transactions interleave freely. The
-- hasher of the standard library is a parameter, of which nothing is assumed.
--
-- The executors call `acquire_lock` in the middle of their work: the model of a run ends there with
-- `fail` when the thread has to wait.
--
-- A frame's index is checked against the pool's size where `fetch_page`, `new_page`, `flush_page` and the
-- search for a victim use it. `unpin_page`, `write_to_page` and `read_from_page` have no panic in the
-- model: they use only frames of the page table, of which `IsPool` says where they lie.
--
-- Not modelled: operating-system errors, the texts of errors, logging, the interactive loop, the HTTP
-- service, and of the SQL engine the parser, which is an external package, the statement loop and the
-- handlers beyond the checks of INSERT, the expressions, the schema of CREATE TABLE and the choice of
-- executors for a SELECT.
pub mod Base
pub mod Types
pub mod Catalog
pub mod Storage
pub mod Execution
pub mod Sql
pub mod Concurrency
