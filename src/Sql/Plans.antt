-- ===== src/Sql/Plans.antt =====
-- The executors that a SELECT runs (src/sql/engine.rs).
use dip_v.Base.{ℕ, Bool, false, ◌||◌, ◌==◌, Option, none, some, List, [], ◌∷◌, if◌then◌else◌}
use dip_v.Base.Int.{ℤ}
use dip_v.Types.{Value}
use dip_v.Catalog.Manager.{TableMetadata}
use dip_v.Storage.BPlusTree.{BPlusTree}
use dip_v.Execution.Expression.{Expression, BinaryOperator}
use dip_v.Execution.IndexScan
use dip_v.Execution.IndexScan.{IndexScanExecutor}
use dip_v.Execution.SeqScan
use dip_v.Execution.SeqScan.{SeqScanExecutor, set_predicate}
use dip_v.Sql.Syntax.{Expr}
use dip_v.Sql.Answer.{Answer, done, ◌>>=◌}
use dip_v.Sql.Predicates.{parse_expression}

-- `root_exec`; a filter holds its child and the predicate.
pub data Plan : Type 0 where
  index_scan : IndexScanExecutor → Plan
  filter : SeqScanExecutor → Expression → Plan
  seq_scan : SeqScanExecutor → Plan

unfoldable pub contains_key : List (ℕ × BPlusTree) → ℕ → Bool
contains_key [] idx = false
contains_key ((col_idx, tree) ∷ indexes) idx = (col_idx == idx) || contains_key indexes idx

-- The column and the key to look up, if the predicate compares an indexed column with a number.
unfoldable pub index_choice : List (ℕ × BPlusTree) → Expression → Option (ℕ × ℤ)
index_choice indexes
      (Expression.binary
        (Expression.column idx)
        BinaryOperator.eq
        (Expression.constant (Value.integer k))) =
    if contains_key indexes idx then some (idx, k) else none
index_choice _ _ = none

-- The executor chain of `handle_query`.
unfoldable pub query_plan : TableMetadata → Option Expr → Answer Plan
query_plan table_meta none = done (Plan.seq_scan SeqScan.new)
query_plan table_meta (some expr) = do
  predicate ← parse_expression expr table_meta.schema
  elim (index_choice table_meta.indexes predicate) [
    | some (col_idx, key) ↦ done (Plan.index_scan (IndexScan.new col_idx key))
    | none ↦ done (Plan.filter (set_predicate SeqScan.new predicate) predicate)
  ]
