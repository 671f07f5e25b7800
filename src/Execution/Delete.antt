-- ===== src/Execution/Delete.antt =====
-- Rows marked as deleted, and their keys dropped (src/execution/delete.rs).
use dip_v.Base.{
  ℕ, ◌+◌, true, false, List, [], ◌∷◌, length, leb, Option, none, some, Result, ok, ◌>>=◌,
}
use dip_v.Base.Bytes.{index}
use dip_v.Types.{Value}
use dip_v.Catalog.Schema.{Schema}
use dip_v.Storage.Rid.{Rid}
use dip_v.Storage.Tuple.{Tuple, get_value}
use dip_v.Storage.PoolManager.{BufferPoolManager}
use dip_v.Storage.TableHeap
use dip_v.Storage.BPlusTree
use dip_v.Storage.BPlusTree.{BPlusTree}
use dip_v.Concurrency.Transaction.{WriteRecord}
use dip_v.Concurrency.LockManager.Queue.{LockMode}
use dip_v.Execution.Executor.{World, Executor, acquire, collect_rids}
use dip_v.Execution.Insert.{note_write}

-- `child` is the state of the executor below.
pub record DeleteExecutor (S : Type 0) : Type 0 where
  pub child : S
  pub rids_to_delete : List Rid
  pub cursor : ℕ

-- `DeleteExecutor::new`
abbrev pub new : {S : Type 0} → S → DeleteExecutor S
new child = record { child = child; rids_to_delete = []; cursor = 0 }

-- `hash` and `hash_rid` are the standard library's hasher on page ids and record ids.
module _ (hash : ℕ → ℕ) (hash_rid : Rid → ℕ) where
  -- "Update Indexes": `delete` does not change the root.
  unfoldable pub delete_keys :
      ℕ → BufferPoolManager → Tuple → Schema → List (ℕ × BPlusTree) → Result BufferPoolManager
  unfolding get_value BPlusTree.delete
  delete_keys rounds m tuple schema [] = ok m
  delete_keys rounds m tuple schema ((col_idx, tree) ∷ rest) = do
    val ← get_value tuple schema col_idx
    elim val [
      | Value.integer k ↦ do
        (_, m1) ← BPlusTree.delete hash rounds m tree k
        delete_keys rounds m1 tuple schema rest
      | Value.boolean b ↦ delete_keys rounds m tuple schema rest
      | Value.varchar bytes ↦ delete_keys rounds m tuple schema rest
    ]

  -- One row of `next`.
  unfoldable pub delete_row : ℕ → World → Rid → Result (Option Tuple × World)
  unfolding TableHeap.get_tuple TableHeap.mark_delete acquire note_write delete_keys
  delete_row rounds w rid = do
    (found, m) ← TableHeap.get_tuple hash w.bpm rid
    let w1 : World = record w { bpm = m }
    elim found [
      | none ↦ ok (none, w1)
      | some tuple ↦ do
        (granted, w2) ← acquire hash_rid w1 rid LockMode.exclusive
        elim granted [
          | false ↦ ok (none, w2)
          | true ↦ do
            (marked, m2) ← TableHeap.mark_delete hash w2.bpm rid
            let w3 : World = record w2 { bpm = m2 }
            elim marked [
              | false ↦ ok (none, w3)
              | true ↦ do
                let w4 = note_write w3 (WriteRecord.delete w3.catalog.name rid tuple)
                m3 ← delete_keys rounds w4.bpm tuple w4.catalog.schema w4.catalog.indexes
                ok (some tuple, record w4 { bpm = m3 })
            ]
        ]
    ]

  module _ {S : Type 0} (below : Executor S) where
    -- `init`
    unfoldable pub init : ℕ → DeleteExecutor S → World → Result (DeleteExecutor S × World)
    unfolding collect_rids
    init rounds s w = do
      (child1, w1) ← below.init s.child w
      (rids, child2, w2) ← collect_rids below rounds child1 w1
      ok (record { child = child2; rids_to_delete = rids; cursor = 0 }, w2)

    -- `next`
    unfoldable pub next :
        ℕ → DeleteExecutor S → World → Result (Option Tuple × DeleteExecutor S × World)
    unfolding delete_row index
    next rounds s w = elim (leb (length s.rids_to_delete) s.cursor) [
      | true ↦ ok (none, s, w)
      | false ↦ do
        rid ← index s.rids_to_delete s.cursor
        (answer, w1) ← delete_row rounds w rid
        ok (answer, record s { cursor = s.cursor + 1 }, w1)
    ]

    abbrev pub executor : ℕ → Executor (DeleteExecutor S)
    executor rounds = record {
      init = init rounds;
      next = next rounds;
      schema = λ s w. w.catalog.schema;
    }
