-- ===== src/Execution/Insert.antt =====
-- Rows into a table, its zone maps and its indexes (src/execution/insert.rs).
use dip_v.Base.{
  ℕ, ◌+◌, Bool, true, false, List, [], ◌∷◌, ◌++◌, length, leb, Option, none, some, Result, ok,
  ◌>>=◌,
}
use dip_v.Base.Bytes.{index}
use dip_v.Types.{Value}
use dip_v.Catalog.Schema.{Schema}
use dip_v.Catalog.Stats
use dip_v.Catalog.Stats.{PageStats, update_row}
use dip_v.Catalog.Manager.{find, put_at}
use dip_v.Storage.Rid.{Rid}
use dip_v.Storage.Tuple.{Tuple, from_values, get_value}
use dip_v.Storage.PoolManager.{BufferPoolManager}
use dip_v.Storage.TableHeap
use dip_v.Storage.BPlusTree.{BPlusTree}
use dip_v.Storage.BPlusTree.Insert
use dip_v.Concurrency.Transaction.{WriteRecord}
use dip_v.Concurrency.LockManager.Queue.{LockMode}
use dip_v.Execution.Executor.{World, Executor, acquire}

pub record InsertExecutor : Type 0 where
  pub values : List (List Value)
  pub cursor : ℕ

-- `InsertExecutor::new`
abbrev pub new : List (List Value) → InsertExecutor
new values = record { values = values; cursor = 0 }

-- `init`
unfoldable pub init : InsertExecutor → World → Result (InsertExecutor × World)
init s w = ok (record s { cursor = 0 }, w)

-- `txn.write_set.push(..)`
unfoldable pub note_write : World → WriteRecord → World
note_write w entry = record w {
  txn = record (w.txn) { write_set = w.txn.write_set ++ (entry ∷ []) };
}

abbrev pub or_new : Option PageStats → PageStats
or_new none = Stats.new
or_new (some page_stats) = page_stats

-- "Update Zone Maps": `entry(page_id).or_insert_with(PageStats::new)` and the loop over the values
unfoldable pub note_values : World → ℕ → List Value → World
unfolding find put_at update_row
note_values w page_id values =
    let old : PageStats = or_new (find page_id w.catalog.page_stats) in
    record w {
      catalog = record (w.catalog) {
        page_stats = put_at page_id (update_row 0 values old) w.catalog.page_stats;
      };
    }

-- `hash` and `hash_rid` are the standard library's hasher on page ids and record ids.
module _ (hash : ℕ → ℕ) (hash_rid : Rid → ℕ) where
  -- "Update Indexes": false if a key was there already; the indexes after it are left alone.
  unfoldable pub insert_keys :
      ℕ
      → BufferPoolManager
      → Tuple
      → Schema
      → Rid
      → List (ℕ × BPlusTree)
      → Result (Bool × List (ℕ × BPlusTree) × BufferPoolManager)
  unfolding get_value Insert.insert
  insert_keys rounds m tuple schema rid [] = ok (true, [], m)
  insert_keys rounds m tuple schema rid ((col_idx, tree) ∷ rest) = do
    val ← get_value tuple schema col_idx
    elim val [
      | Value.integer k ↦ do
        (inserted, tree1, m1) ← Insert.insert hash rounds m tree k rid
        elim inserted [
          | false ↦ ok (false, (col_idx, tree1) ∷ rest, m1)
          | true ↦ do
            (done, rest1, m2) ← insert_keys rounds m1 tuple schema rid rest
            ok (done, (col_idx, tree1) ∷ rest1, m2)
        ]
      | Value.boolean b ↦ do
        (done, rest1, m1) ← insert_keys rounds m tuple schema rid rest
        ok (done, (col_idx, tree) ∷ rest1, m1)
      | Value.varchar bytes ↦ do
        (done, rest1, m1) ← insert_keys rounds m tuple schema rid rest
        ok (done, (col_idx, tree) ∷ rest1, m1)
    ]

  -- What follows a row that got a record id: false stops the row with `None`.
  unfoldable pub insert_placed : ℕ → World → List Value → Tuple → Rid → Result (Bool × World)
  unfolding note_write acquire note_values insert_keys
  insert_placed rounds w values tuple rid = do
    (granted, w1) ←
        acquire hash_rid (note_write w (WriteRecord.insert w.catalog.name rid)) rid
          LockMode.exclusive
    elim granted [
      | false ↦ ok (false, w1)
      | true ↦ do
        let w2 = note_values w1 rid.page_id values
        (done, indexes, m) ←
            insert_keys rounds w2.bpm tuple w2.catalog.schema rid w2.catalog.indexes
        ok (done, record w2 { catalog = record (w2.catalog) { indexes = indexes }; bpm = m })
    ]

  -- `next`: a tuple that found no page is returned like one that did.
  unfoldable pub next : ℕ → InsertExecutor → World → Result (Option Tuple × InsertExecutor × World)
  unfolding from_values TableHeap.insert_tuple insert_placed index
  next rounds s w = elim (leb (length s.values) s.cursor) [
    | true ↦ ok (none, s, w)
    | false ↦ do
      values ← index s.values s.cursor
      tuple ← from_values values w.catalog.schema
      (placed, m) ← TableHeap.insert_tuple hash rounds w.catalog.table w.bpm tuple
      let w1 : World = record w { bpm = m }
      let s1 : InsertExecutor = record s { cursor = s.cursor + 1 }
      elim placed [
        | none ↦ ok (some tuple, s1, w1)
        | some rid ↦ do
          (done, w2) ← insert_placed rounds w1 values tuple rid
          elim done [ false ↦ ok (none, s, w2) | true ↦ ok (some tuple, s1, w2) ]
      ]
  ]

  abbrev pub executor : ℕ → Executor InsertExecutor
  executor rounds = record { init = init; next = next rounds; schema = λ s w. w.catalog.schema }
