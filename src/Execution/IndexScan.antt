-- ===== src/Execution/IndexScan.antt =====
-- The row of one key, by the index (src/execution/index_scan.rs).
use dip_v.Base.{ℕ, Bool, true, false, Option, none, some, Result, ok, ◌>>=◌}
use dip_v.Base.Int.{ℤ}
use dip_v.Catalog.Manager.{find}
use dip_v.Storage.Rid.{Rid}
use dip_v.Storage.Tuple.{Tuple}
use dip_v.Storage.TableHeap
use dip_v.Storage.BPlusTree
use dip_v.Concurrency.LockManager.Queue.{LockMode}
use dip_v.Execution.Executor.{World, Executor, acquire}

pub record IndexScanExecutor : Type 0 where
  pub col_idx : ℕ
  pub key : ℤ
  pub finished : Bool

-- `IndexScanExecutor::new`
abbrev pub new : ℕ → ℤ → IndexScanExecutor
new col_idx key = record { col_idx = col_idx; key = key; finished = false }

-- `init`
unfoldable pub init : IndexScanExecutor → World → Result (IndexScanExecutor × World)
init s w = ok (record s { finished = false }, w)

-- `hash` and `hash_rid` are the standard library's hasher on page ids and record ids.
module _ (hash : ℕ → ℕ) (hash_rid : Rid → ℕ) where
  -- The row behind a record id, under a shared lock.
  unfoldable pub locked_row : World → Rid → Result (Option Tuple × World)
  unfolding TableHeap.get_tuple acquire
  locked_row w rid = do
    (found, m) ← TableHeap.get_tuple hash w.bpm rid
    let w1 : World = record w { bpm = m }
    elim found [
      | none ↦ ok (none, w1)
      | some tuple ↦ do
        (granted, w2) ← acquire hash_rid w1 rid LockMode.shared
        elim granted [ false ↦ ok (none, w2) | true ↦ ok (some tuple, w2) ]
    ]

  -- `next`
  unfoldable pub next :
      ℕ → IndexScanExecutor → World → Result (Option Tuple × IndexScanExecutor × World)
  unfolding find BPlusTree.get_value locked_row
  next rounds s w = elim s.finished [
    | true ↦ ok (none, s, w)
    | false ↦
        let s1 : IndexScanExecutor = record s { finished = true } in
        elim (find s.col_idx w.catalog.indexes) [
          | none ↦ ok (none, s1, w)
          | some tree ↦ do
            (value, m) ← BPlusTree.get_value hash rounds w.bpm tree s.key
            let w1 : World = record w { bpm = m }
            elim value [
              | none ↦ ok (none, s1, w1)
              | some rid ↦ do (answer, w2) ← locked_row w1 rid; ok (answer, s1, w2)
            ]
        ]
  ]

  abbrev pub executor : ℕ → Executor IndexScanExecutor
  executor rounds = record { init = init; next = next rounds; schema = λ s w. w.catalog.schema }
