-- ===== src/Execution/Tests.antt =====
-- A batch to try (src/execution/vectorized.rs).
use dip_v.Base.{
  false, not, ◌==◌, none, some, arith, drop, ℕ, ◌<◌, ◌≡◌, refl, true, List, [], ◌∷◌, ok,
}
use dip_v.Base.Int.{pos}
use dip_v.Base.Bytes.{index, slice_from}
use dip_v.Types
use dip_v.Types.{Value, TypeId}
use dip_v.Catalog.Schema.{Schema}
use dip_v.Storage.Rid
use dip_v.Storage.Tuple.{Tuple, get_value, skip}
use dip_v.Storage.PoolManager
use dip_v.Storage.TableHeap.{from_first_page_id}
use dip_v.Concurrency.Transaction
use dip_v.Concurrency.LockManager
use dip_v.Execution.Expression.{Expression, evaluate}
use dip_v.Execution.Executor.{World, Executor, filter_executor, collect_rids}
use dip_v.Execution.Executor.Yields.{
  Yields, no_more, one_more, keep, Stays, rids_of, filter-Yields, collect_rids_lem,
}
use dip_v.Execution.Vectorized.{TupleBatch, push, get_row, IsBatch, push_lem}

abbrev batch : TupleBatch
batch = record {
  columns = (Value.integer (pos 1) ∷ []) ∷ (Value.boolean true ∷ []) ∷ [];
  row_count = 1;
}

abbrev second : List Value
second = Value.integer (pos 2) ∷ Value.boolean true ∷ []

push_lem_example :
    (batch' : TupleBatch) × (push batch second ≡ ok batch')
    × (get_row batch' 1 ≡ ok second)
    × ((i : ℕ) → i < 1 → get_row batch' i ≡ get_row batch i)
    × IsBatch batch'
unfolding IsBatch
push_lem_example = push_lem batch second (refl, (refl, tt)) refl

-- A table of one Boolean column, and an executor that yields the rows of a list.
abbrev flags : Schema
flags = record {
  columns = record { name = 102 ∷ []; type_id = TypeId.boolean; is_primary = false } ∷ [];
}

abbrev world : World
world = record {
  catalog = record {
    name = 102 ∷ [];
    schema = flags;
    table = from_first_page_id 0;
    page_stats = [];
    indexes = [];
  };
  txn = Transaction.new 1;
  lock_manager = LockManager.new;
  bpm = PoolManager.new 64 (record { file = []; next_page_id = 0 });
}

abbrev rows_executor : Executor (List Tuple)
rows_executor = record {
  init = λ s w. ok (s, w);
  next = λ s w. elim s [ [] ↦ ok (none, [], w) | t ∷ ts ↦ ok (some t, ts, w) ];
  schema = λ s w. w.catalog.schema;
}

abbrev on_row : Tuple
on_row = record { bytes = 1 ∷ []; rid = some (Rid.new 3 4) }

abbrev off_row : Tuple
off_row = record { bytes = 0 ∷ []; rid = some (Rid.new 3 5) }

both : Yields rows_executor (off_row ∷ on_row ∷ []) world (off_row ∷ on_row ∷ [])
both =
    one_more (off_row ∷ on_row ∷ []) (on_row ∷ []) world world off_row (on_row ∷ []) refl
      (one_more (on_row ∷ []) [] world world on_row [] refl (no_more [] [] world world refl))

abbrev flag_of : Tuple → Value
flag_of t = elim t.bytes [ [] ↦ Value.boolean false | b ∷ rest ↦ Value.boolean (not (b == 0)) ]

filter-Yields_example :
    Yields
      (filter_executor rows_executor (Expression.column 0) 3)
      (off_row ∷ on_row ∷ [])
      world
      (on_row ∷ [])
unfolding evaluate get_value skip index slice_from Types.from_bytes keep drop Stays both
filter-Yields_example =
    filter-Yields rows_executor (Expression.column 0) flags flag_of 3 (off_row ∷ on_row ∷ []) world
      (off_row ∷ on_row ∷ []) (omega arith) (refl, (refl, tt)) both (refl, (refl, tt))

collect_rids_lem_example :
    (s' : List Tuple) × (w' : World) × (collect_rids rows_executor 3 (off_row ∷ on_row ∷ []) world
      ≡ ok (Rid.new 3 5 ∷ Rid.new 3 4 ∷ [], s', w'))
unfolding rids_of
collect_rids_lem_example =
    collect_rids_lem rows_executor 3 (off_row ∷ on_row ∷ []) world (off_row ∷ on_row ∷ [])
      (omega arith) both
