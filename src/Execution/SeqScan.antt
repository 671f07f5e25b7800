-- ===== src/Execution/SeqScan.antt =====
-- The scan of a table with pruning by zone maps (src/execution/seq_scan.rs).
pub mod Rows
use dip_v.Base.{
  ℕ, zero, suc, ◌%◌, ◌^◌, Bool, true, false, not, if◌then◌else◌, Option, none, some, Result, ok,
  fail, panic, ◌>>=◌,
}
use dip_v.Types.{Value}
use dip_v.Catalog.Schema.{Schema}
use dip_v.Catalog.Stats.{might_satisfy}
use dip_v.Catalog.Manager.{TableMetadata, find}
use dip_v.Storage.Rid.{Rid}
use dip_v.Storage.Tuple.{Tuple}
use dip_v.Storage.SlottedPage.{is_tuple_marked_for_delete}
use dip_v.Storage.PoolManager.{BufferPoolManager}
use dip_v.Storage.PageAccess.{must_open, close_page}
use dip_v.Storage.TableHeap
use dip_v.Storage.TableHeap.{TableIterator, iter, skip_page}
use dip_v.Concurrency.LockManager.Queue.{LockMode}
use dip_v.Execution.Expression.{Expression, evaluate}
use dip_v.Execution.Executor.{World, Executor, acquire}

pub record SeqScanExecutor : Type 0 where
  pub iterator : Option TableIterator
  pub predicate : Option Expression

-- `SeqScanExecutor::new`
abbrev pub new : SeqScanExecutor
new = record { iterator = none; predicate = none }

-- `set_predicate`
abbrev pub set_predicate : SeqScanExecutor → Expression → SeqScanExecutor
set_predicate s predicate = record s { predicate = some predicate }

-- `init`
unfoldable pub init : SeqScanExecutor → World → Result (SeqScanExecutor × World)
init s w = ok (record s { iterator = some (iter w.catalog.table) }, w)

-- "Zone Map Pruning Logic": no row of the page can match.
unfoldable pub should_skip : Option Expression → TableMetadata → ℕ → Bool
unfolding find might_satisfy
should_skip none catalog pid = false
should_skip (some predicate) catalog pid = elim (find pid catalog.page_stats) [
  | some page_stats ↦ not (might_satisfy page_stats predicate)
  | none ↦ false
]

-- `matches`
unfoldable pub row_matches : Option Expression → Tuple → Schema → Result Bool
unfolding evaluate
row_matches none tuple schema = ok true
row_matches (some predicate) tuple schema = do
  result ← evaluate predicate tuple schema
  elim result [ Value.boolean b ↦ ok b | Value.integer n ↦ panic | Value.varchar bytes ↦ panic ]

-- `hash` and `hash_rid` are the standard library's hasher on page ids and record ids.
module _ (hash : ℕ → ℕ) (hash_rid : Rid → ℕ) where
  -- `is_deleted`: the mark on the page, read again under the lock
  unfoldable pub is_deleted : BufferPoolManager → Rid → Result (Bool × BufferPoolManager)
  unfolding must_open close_page is_tuple_marked_for_delete
  is_deleted m rid = do
    (page, m1) ← must_open hash m rid.page_id
    deleted ← is_tuple_marked_for_delete page (rid.slot_num % 2 ^ 16)
    ok (deleted, close_page hash m1 rid.page_id)

  -- The arm `Some(tuple)` of the loop: `some r` returns `r`, `none` goes on.
  unfoldable pub visit : Option Expression → Tuple → World → Result (Option (Option Tuple) × World)
  unfolding acquire is_deleted row_matches
  visit predicate tuple w = elim tuple.rid [
    | none ↦ panic
    | some rid ↦ do
      (granted, w1) ← acquire hash_rid w rid LockMode.shared
      elim granted [
        | false ↦ ok (some none, w1)
        | true ↦ do
          (deleted, m) ← is_deleted w1.bpm rid
          let w2 : World = record w1 { bpm = m }
          elim deleted [
            | true ↦ ok (none, w2)
            | false ↦ do
              matched ← row_matches predicate tuple w2.catalog.schema
              ok (if matched then some (some tuple) else none, w2)
          ]
      ]
  ]

  -- The loop of `next`: the rounds bound its own and those of the iterator.
  unfoldable pub next_from :
      ℕ → Option Expression → TableIterator → World → Result (Option Tuple × TableIterator × World)
  unfolding should_skip skip_page visit TableHeap.next
  next_from zero predicate it w = fail
  next_from (suc rounds) predicate it w =
      elim (should_skip predicate w.catalog it.current_page_id) [
        | true ↦ do
          (it1, m) ← skip_page hash it w.bpm
          let w1 : World = record w { bpm = m }
          elim it1.finished [
            | true ↦ ok (none, it1, w1)
            | false ↦ next_from rounds predicate it1 w1
          ]
        | false ↦ do
          (found, it1, m) ← TableHeap.next hash rounds it w.bpm
          let w1 : World = record w { bpm = m }
          elim found [
            | none ↦ ok (none, it1, w1)
            | some tuple ↦ do
              (verdict, w2) ← visit predicate tuple w1
              elim verdict [
                | some answer ↦ ok (answer, it1, w2)
                | none ↦ next_from rounds predicate it1 w2
              ]
          ]
      ]

  -- `next`
  unfoldable pub next :
      ℕ → SeqScanExecutor → World → Result (Option Tuple × SeqScanExecutor × World)
  unfolding next_from
  next rounds s w = elim s.iterator [
    | none ↦ ok (none, s, w)
    | some it ↦ do
      (found, it1, w1) ← next_from rounds s.predicate it w
      ok (found, record s { iterator = some it1 }, w1)
  ]

  abbrev pub executor : ℕ → Executor SeqScanExecutor
  executor rounds = record { init = init; next = next rounds; schema = λ s w. w.catalog.schema }
