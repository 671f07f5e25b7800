-- ===== src/Execution/Update.antt =====
-- Rows replaced: the old one marked as deleted, the new one inserted (src/execution/update.rs).
use dip_v.Base.{
  ℕ, zero, suc, ◌+◌, Bool, true, false, List, [], ◌∷◌, length, leb, Option, none, some, Result, ok,
  ◌>>=◌,
}
use dip_v.Base.Int.{ℤ}
use dip_v.Base.Bytes.{index}
use dip_v.Types.{Value}
use dip_v.Catalog.Schema.{Schema, column_count}
use dip_v.Catalog.Manager.{find}
use dip_v.Storage.Rid.{Rid}
use dip_v.Storage.Tuple.{Tuple, from_values, get_value}
use dip_v.Storage.PoolManager.{BufferPoolManager}
use dip_v.Storage.TableHeap
use dip_v.Storage.BPlusTree
use dip_v.Storage.BPlusTree.{BPlusTree, key_eq}
use dip_v.Storage.BPlusTree.Insert
use dip_v.Concurrency.Transaction.{WriteRecord}
use dip_v.Concurrency.LockManager.Queue.{LockMode}
use dip_v.Execution.Expression.{Expression, evaluate}
use dip_v.Execution.Executor.{World, Executor, acquire, collect_rids}
use dip_v.Execution.Insert.{note_write, note_values}

-- `child` is the state of the executor below; `assignments` maps a column to its expression.
pub record UpdateExecutor (S : Type 0) : Type 0 where
  pub child : S
  pub assignments : List (ℕ × Expression)
  pub rids_to_update : List Rid
  pub cursor : ℕ

-- `UpdateExecutor::new`
abbrev pub new : {S : Type 0} → S → List (ℕ × Expression) → UpdateExecutor S
new child assignments = record {
  child = child;
  assignments = assignments;
  rids_to_update = [];
  cursor = 0;
}

-- "Calculate New Values", from column `i` on with the rounds left.
unfoldable pub new_values : List (ℕ × Expression) → Tuple → Schema → ℕ → ℕ → Result (List Value)
unfolding find evaluate get_value
new_values assignments tuple schema zero i = ok []
new_values assignments tuple schema (suc rounds) i = do
  val ← elim (find i assignments) [
    | some expr ↦ evaluate expr tuple schema
    | none ↦ get_value tuple schema i
  ]
  rest ← new_values assignments tuple schema rounds (i + 1)
  ok (val ∷ rest)

-- The values of a row, from column `i` on with the rounds left.
unfoldable pub read_values : Tuple → Schema → ℕ → ℕ → Result (List Value)
unfolding get_value
read_values tuple schema zero i = ok []
read_values tuple schema (suc rounds) i = do
  val ← get_value tuple schema i
  rest ← read_values tuple schema rounds (i + 1)
  ok (val ∷ rest)

-- `if let (Value::Integer(old_k), Value::Integer(new_k)) = ..`
abbrev pub integer_keys : Value → Value → Option (ℤ × ℤ)
integer_keys (Value.integer old_k) (Value.integer new_k) = some (old_k, new_k)
integer_keys _ _ = none

-- `hash` and `hash_rid` are the standard library's hasher on page ids and record ids.
module _ (hash : ℕ → ℕ) (hash_rid : Rid → ℕ) where
  -- One index: false if the new key was there already.
  unfoldable pub move_key :
      ℕ
      → BufferPoolManager
      → BPlusTree
      → ℤ
      → ℤ
      → Rid
      → Result (Bool × BPlusTree × BufferPoolManager)
  unfolding BPlusTree.update_value BPlusTree.delete Insert.insert key_eq
  move_key rounds m tree old_k new_k new_rid = elim (key_eq old_k new_k) [
    | true ↦ do
      (_, m1) ← BPlusTree.update_value hash rounds m tree new_k new_rid
      ok (true, tree, m1)
    | false ↦ do
      (_, m1) ← BPlusTree.delete hash rounds m tree old_k
      Insert.insert hash rounds m1 tree new_k new_rid
  ]

  -- "Update Indexes": the indexes after a failure are left alone.
  unfoldable pub move_keys :
      ℕ
      → BufferPoolManager
      → Tuple
      → Tuple
      → Schema
      → Rid
      → List (ℕ × BPlusTree)
      → Result (Bool × List (ℕ × BPlusTree) × BufferPoolManager)
  unfolding get_value move_key
  move_keys rounds m tuple new_tuple schema new_rid [] = ok (true, [], m)
  move_keys rounds m tuple new_tuple schema new_rid ((col_idx, tree) ∷ rest) = do
    old_val ← get_value tuple schema col_idx
    new_val ← get_value new_tuple schema col_idx
    elim (integer_keys old_val new_val) [
      | none ↦ do
        (done, rest1, m1) ← move_keys rounds m tuple new_tuple schema new_rid rest
        ok (done, (col_idx, tree) ∷ rest1, m1)
      | some (old_k, new_k) ↦ do
        (moved, tree1, m1) ← move_key rounds m tree old_k new_k new_rid
        elim moved [
          | false ↦ ok (false, (col_idx, tree1) ∷ rest, m1)
          | true ↦ do
            (done, rest1, m2) ← move_keys rounds m1 tuple new_tuple schema new_rid rest
            ok (done, (col_idx, tree1) ∷ rest1, m2)
        ]
    ]

  -- What follows the new row's record id: its lock, the write record, zone maps and indexes.
  unfoldable pub update_placed :
      ℕ → World → Rid → Tuple → Rid → Tuple → Result (Option Tuple × World)
  unfolding acquire note_write read_values note_values move_keys
  update_placed rounds w rid tuple new_rid new_tuple = do
    (granted, w1) ← acquire hash_rid w new_rid LockMode.exclusive
    elim granted [
      | false ↦ ok (none, w1)
      | true ↦ do
        let schema = w1.catalog.schema
        let w2 = note_write w1 (WriteRecord.update w1.catalog.name rid tuple new_rid new_tuple)
        values ← read_values new_tuple schema (column_count schema) 0
        let w3 = note_values w2 new_rid.page_id values
        (done, indexes, m) ←
            move_keys rounds w3.bpm tuple new_tuple schema new_rid w3.catalog.indexes
        let w4 : World = record w3 { catalog = record (w3.catalog) { indexes = indexes }; bpm = m }
        elim done [ false ↦ ok (none, w4) | true ↦ ok (some new_tuple, w4) ]
    ]

  -- "Mark Old as Deleted" and "Insert New Tuple"
  unfoldable pub replace_row : ℕ → World → Rid → Tuple → Tuple → Result (Option Tuple × World)
  unfolding TableHeap.mark_delete TableHeap.insert_tuple update_placed
  replace_row rounds w rid tuple new_tuple = do
    (marked, m) ← TableHeap.mark_delete hash w.bpm rid
    let w1 : World = record w { bpm = m }
    elim marked [
      | false ↦ ok (none, w1)
      | true ↦ do
        (placed, m2) ← TableHeap.insert_tuple hash rounds w1.catalog.table w1.bpm new_tuple
        let w2 : World = record w1 { bpm = m2 }
        elim placed [
          | none ↦ ok (none, w2)
          | some new_rid ↦ update_placed rounds w2 rid tuple new_rid new_tuple
        ]
    ]

  -- One row of `next`.
  unfoldable pub update_one :
      ℕ → List (ℕ × Expression) → World → Rid → Result (Option Tuple × World)
  unfolding TableHeap.get_tuple acquire new_values from_values replace_row
  update_one rounds assignments w rid = do
    (found, m) ← TableHeap.get_tuple hash w.bpm rid
    let w1 : World = record w { bpm = m }
    elim found [
      | none ↦ ok (none, w1)
      | some tuple ↦ do
        (granted, w2) ← acquire hash_rid w1 rid LockMode.exclusive
        elim granted [
          | false ↦ ok (none, w2)
          | true ↦ do
            let schema = w2.catalog.schema
            values ← new_values assignments tuple schema (column_count schema) 0
            new_tuple ← from_values values schema
            replace_row rounds w2 rid tuple new_tuple
        ]
    ]

  module _ {S : Type 0} (below : Executor S) where
    -- `init`
    unfoldable pub init : ℕ → UpdateExecutor S → World → Result (UpdateExecutor S × World)
    unfolding collect_rids
    init rounds s w = do
      (child1, w1) ← below.init s.child w
      (rids, child2, w2) ← collect_rids below rounds child1 w1
      ok (record s { child = child2; rids_to_update = rids; cursor = 0 }, w2)

    -- `next`
    unfoldable pub next :
        ℕ → UpdateExecutor S → World → Result (Option Tuple × UpdateExecutor S × World)
    unfolding update_one index
    next rounds s w = elim (leb (length s.rids_to_update) s.cursor) [
      | true ↦ ok (none, s, w)
      | false ↦ do
        rid ← index s.rids_to_update s.cursor
        (answer, w1) ← update_one rounds s.assignments w rid
        ok (answer, record s { cursor = s.cursor + 1 }, w1)
    ]

    abbrev pub executor : ℕ → Executor (UpdateExecutor S)
    executor rounds = record {
      init = init rounds;
      next = next rounds;
      schema = λ s w. w.catalog.schema;
    }
