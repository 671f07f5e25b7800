-- ===== src/Execution/SeqScan/Rows.antt =====
-- A scan leaves the table's description alone, so the filter over it judges every row by one schema
-- (src/execution/seq_scan.rs, src/execution/filter.rs).
use dip_v.Base.{
  ℕ, zero, suc, ◌<◌, ◌≡◌, refl, List, length, Option, some, Bool, ok, ◌>>=◌, >>=-eq-ok,
  ok-injective, inl, inr, Option-cases, All, arith, ap, sym, ◌∙◌,
}
use dip_v.Types.{Value}
use dip_v.Catalog.Manager.{TableMetadata}
use dip_v.Catalog.Schema.{Schema}
use dip_v.Storage.Rid.{Rid}
use dip_v.Storage.Tuple.{Tuple}
use dip_v.Storage.TableHeap.{TableIterator}
use dip_v.Concurrency.LockManager.Queue.{LockMode}
use dip_v.Execution.Expression.{Expression, evaluate}
use dip_v.Execution.Executor.{World, acquire, filter_executor}
use dip_v.Execution.Executor.Yields.{Yields, no_more, one_more, Stays, keep, filter-Yields}
use dip_v.Execution.SeqScan.{SeqScanExecutor, visit, next_from, next, executor}

acquire-catalog :
    (hash_rid : Rid → ℕ) (w w1 : World) (rid : Rid) (mode : LockMode) (granted : Bool)
    → acquire hash_rid w rid mode ≡ ok (granted, w1)
    → w1.catalog ≡ w.catalog
unfolding acquire
acquire-catalog hash_rid w w1 rid mode granted h = ground (arith, h)

module _ (hash : ℕ → ℕ) (hash_rid : Rid → ℕ) where
  visit-catalog :
      (predicate : Option Expression) (tuple : Tuple) (w w1 : World)
      (answer : Option (Option Tuple))
      → visit hash hash_rid predicate tuple w ≡ ok (answer, w1)
      → w1.catalog ≡ w.catalog
  unfolding visit
  visit-catalog predicate tuple w w1 answer h = grind (arith, h, acquire-catalog hash_rid)

  next_from-catalog :
      (rounds : ℕ) (predicate : Option Expression) (it it1 : TableIterator) (w w1 : World)
      (found : Option Tuple)
      → next_from hash hash_rid rounds predicate it w ≡ ok (found, it1, w1)
      → w1.catalog ≡ w.catalog
  unfolding next_from
  next_from-catalog zero predicate it it1 w w1 found h = cc
  next_from-catalog (suc rounds) predicate it it1 w w1 found h =
      grind (arith, h, visit-catalog predicate, next_from-catalog rounds predicate)

  -- A call of `next` leaves the description of the table alone.
  pub next-catalog :
      (rounds : ℕ) (s s1 : SeqScanExecutor) (w w1 : World) (found : Option Tuple)
      → next hash hash_rid rounds s w ≡ ok (found, s1, w1)
      → w1.catalog ≡ w.catalog
  unfolding next
  next-catalog rounds s s1 w w1 found h = elim (Option-cases s.iterator) [
    | inl e ↦ ground (arith, h, e)
    | inr (it, e) ↦
        let h' : (next_from hash hash_rid rounds s.predicate it w >>= λ out.
        ok (out.0, record s { iterator = some out.1 }, out.2))
            ≡ ok (found, s1, w1) =
          rw e at h in
        let (out, runs, same) = >>=-eq-ok (next_from hash hash_rid rounds s.predicate it w) _ h' in
        let kept : out.2.catalog ≡ w.catalog =
          next_from-catalog rounds s.predicate it out.1 w out.2 out.0 runs in
        let at : out.2 ≡ w1 =
          ap (λ x. x.2)
            (ok-injective (out.0, record s { iterator = some out.1 }, out.2) (found, s1, w1)
              same) in
        ap (λ (v : World). v.catalog) (sym at) ∙ kept
  ]

  scan-Stays :
      (rounds : ℕ) (schema : Schema) {s : SeqScanExecutor} {w : World} {ts : List Tuple}
      (y : Yields (executor hash hash_rid rounds) s w ts)
      → w.catalog.schema ≡ schema
      → Stays (executor hash hash_rid rounds) schema y
  unfolding Stays
  scan-Stays rounds schema (no_more s s1 w w1 e) at = tt
  scan-Stays rounds schema (one_more s s1 w w1 t ts e more) at =
      let kept : w1.catalog.schema ≡ schema =
        ap (λ (c : TableMetadata). c.schema) (next-catalog rounds s s1 w w1 (some t) e) ∙ at in
      (kept, scan-Stays rounds schema more kept)

  -- A scan of a table under the filter, as a query runs them: if the scan yields some rows and the
  -- predicate has a verdict on each under the table's schema, then the filter with more rounds than
  -- rows yields just the rows with the verdict true, in their order.
  pub filter_scan-Yields :
      (predicate : Expression) (verdict : Tuple → Value) (scan_rounds rounds : ℕ)
      (s : SeqScanExecutor) (w : World) (ts : List Tuple)
      → length ts < rounds
      → All (λ (t : Tuple). evaluate predicate t w.catalog.schema ≡ ok (verdict t)) ts
      → Yields (executor hash hash_rid scan_rounds) s w ts
      → Yields
          (filter_executor (executor hash hash_rid scan_rounds) predicate rounds)
          s
          w
          (keep verdict ts)
  filter_scan-Yields predicate verdict scan_rounds rounds s w ts few judged y =
      filter-Yields (executor hash hash_rid scan_rounds) predicate w.catalog.schema verdict rounds s
        w ts few judged y (scan-Stays scan_rounds w.catalog.schema y refl)
