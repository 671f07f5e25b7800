-- ===== src/Execution/Executor.antt =====
-- What the executors share: the context and the interface (src/execution/executor.rs), and the
-- filter (src/execution/filter.rs).
-- `World` holds the context's shared objects and the buffer pool behind them. In a `Result` of an
-- executor `ok (none, ..)` is `None`; `fail` says that the run stops here: its rounds are used up, or
-- its thread waits for a lock, and then other transactions go on.
pub mod Yields
use dip_v.Base.{
  ℕ, zero, suc, Bool, true, false, List, [], ◌∷◌, Option, none, some, Result, ok, fail, ◌>>=◌,
}
use dip_v.Types.{Value}
use dip_v.Catalog.Schema.{Schema}
use dip_v.Catalog.Manager.{TableMetadata}
use dip_v.Storage.Rid.{Rid}
use dip_v.Storage.Tuple.{Tuple}
use dip_v.Storage.PoolManager.{BufferPoolManager}
use dip_v.Concurrency.Transaction.{Transaction}
use dip_v.Concurrency.LockManager.{LockManager, Answer, Outcome, acquire_lock}
use dip_v.Concurrency.LockManager.Queue.{LockMode}
use dip_v.Execution.Expression.{Expression, evaluate}

-- `ExecutorContext`
pub record World : Type 0 where
  pub catalog : TableMetadata
  pub txn : Transaction
  pub lock_manager : LockManager
  pub bpm : BufferPoolManager

-- `lock_manager.acquire_lock(txn, rid, mode)`
unfoldable pub acquire : (Rid → ℕ) → World → Rid → LockMode → Result (Bool × World)
unfolding acquire_lock
acquire hash_rid w rid mode =
    let out : Outcome = acquire_lock hash_rid w.lock_manager w.txn rid mode in
    elim out.answer [
      | Answer.returned granted ↦
          ok (granted, record w { txn = out.txn; lock_manager = out.manager })
      | Answer.waiting ↦ fail
    ]

-- `txn.write_set.push(record)`; the list is in the order of the vector.
abbrev pub with_txn : World → Transaction → World
with_txn w txn = record w { txn = txn }

-- The trait `Executor`, for an executor with state in `S`.
pub record Executor (S : Type 0) : Type 0 where
  pub init : S → World → Result (S × World)
  pub next : S → World → Result (Option Tuple × S × World)
  pub schema : S → World → Schema

module _ {S : Type 0} (child : Executor S) (predicate : Expression) where
  -- The loop of `FilterExecutor::next`, on rounds.
  unfoldable pub filter_next : ℕ → S → World → Result (Option Tuple × S × World)
  unfolding evaluate
  filter_next zero s w = fail
  filter_next (suc rounds) s w = do
    (found, s1, w1) ← child.next s w
    elim found [
      | none ↦ ok (none, s1, w1)
      | some tuple ↦ do
        result ← evaluate predicate tuple (child.schema s1 w1)
        elim result [
          | Value.boolean true ↦ ok (some tuple, s1, w1)
          | Value.boolean false ↦ filter_next rounds s1 w1
          | Value.integer n ↦ filter_next rounds s1 w1
          | Value.varchar bytes ↦ filter_next rounds s1 w1
        ]
    ]

  -- `FilterExecutor`
  abbrev pub filter_executor : ℕ → Executor S
  filter_executor rounds = record {
    init = child.init;
    next = filter_next rounds;
    schema = child.schema;
  }

-- The loop that `DeleteExecutor::init` and `UpdateExecutor::init` run on their child: the record ids
-- of its tuples, after those so far.
module _ {S : Type 0} (child : Executor S) where
  unfoldable pub collect_rids : ℕ → S → World → Result (List Rid × S × World)
  collect_rids zero s w = fail
  collect_rids (suc rounds) s w = do
    (found, s1, w1) ← child.next s w
    elim found [
      | none ↦ ok ([], s1, w1)
      | some tuple ↦ do
        (rids, s2, w2) ← collect_rids rounds s1 w1
        elim tuple.rid [ none ↦ ok (rids, s2, w2) | some rid ↦ ok (rid ∷ rids, s2, w2) ]
    ]
