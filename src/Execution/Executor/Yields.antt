-- ===== src/Execution/Executor/Yields.antt =====
-- The rows that an executor yields, one call of `next` after the other
-- (src/execution/executor.rs, src/execution/filter.rs).
use dip_v.Base.{
  ℕ, zero, suc, ◌<◌, ◌≡◌, refl, Bool, true, false, Bool-cases, inl, inr, List, [], ◌∷◌, length,
  if◌then◌else◌, none, some, Option-cases, All, ok, arith, sym, ◌∙◌,
}
use dip_v.Types.{Value}
use dip_v.Catalog.Schema.{Schema}
use dip_v.Storage.Rid.{Rid}
use dip_v.Storage.Tuple.{Tuple}
use dip_v.Execution.Expression.{Expression, evaluate}
use dip_v.Execution.Executor.{World, Executor, filter_next, filter_executor, collect_rids}

-- The calls of `next` yield these rows, and then no more.
pub data Yields {S : Type 0} (x : Executor S) : S → World → List Tuple → Type 0 where
  no_more : (s s1 : S) (w w1 : World) → x.next s w ≡ ok (none, s1, w1) → Yields x s w []
  one_more :
      (s s1 : S) (w w1 : World) (t : Tuple) (ts : List Tuple)
      → x.next s w ≡ ok (some t, s1, w1)
      → Yields x s1 w1 ts
      → Yields x s w (t ∷ ts)

-- `if let Value::Boolean(true)`
abbrev pub is_true : Value → Bool
is_true (Value.boolean b) = b
is_true _ = false

-- The rows that a verdict keeps.
unfoldable pub keep : (Tuple → Value) → List Tuple → List Tuple
keep verdict [] = []
keep verdict (t ∷ ts) = let rest = keep verdict ts in if is_true (verdict t) then t ∷ rest else rest

-- The record ids of the rows that have one.
unfoldable pub rids_of : List Tuple → List Rid
rids_of [] = []
rids_of (t ∷ ts) = let rest = rids_of ts in elim t.rid [ none ↦ rest | some rid ↦ rid ∷ rest ]

-- What is yielded depends on the first call only.
Yields-next :
    {S : Type 0} (x : Executor S) (s s1 : S) (w w1 : World) (ts : List Tuple)
    → x.next s w ≡ x.next s1 w1
    → Yields x s1 w1 ts
    → Yields x s w ts
Yields-next x s s1 w w1 ts same (no_more t1 s2 v1 w2 e) = no_more s s2 w w2 (same ∙ e)
Yields-next x s s1 w w1 ts same (one_more t1 s2 v1 w2 t rest e more) =
    one_more s s2 w w2 t rest (same ∙ e) more

-- After each of these rows the executor's schema is this one.
unfoldable pub Stays :
    {S : Type 0} (x : Executor S) (schema : Schema) {s : S} {w : World} {ts : List Tuple}
    → Yields x s w ts
    → Type 0
Stays x schema (no_more s s1 w w1 e) = Unit
Stays x schema (one_more s s1 w w1 t ts e more) = (x.schema s1 w1 ≡ schema) × Stays x schema more

module _ {S : Type 0} (child : Executor S) (predicate : Expression) (schema : Schema)
    (verdict : Tuple → Value) where
  filter_none :
      (rounds : ℕ) (s s1 : S) (w w1 : World)
      → child.next s w ≡ ok (none, s1, w1)
      → filter_next child predicate (suc rounds) s w ≡ ok (none, s1, w1)
  unfolding filter_next
  filter_none rounds s s1 w w1 e = rw e refl

  filter_kept :
      (rounds : ℕ) (s s1 : S) (w w1 : World) (t : Tuple) (v : Value)
      → child.next s w ≡ ok (some t, s1, w1)
      → child.schema s1 w1 ≡ schema
      → evaluate predicate t schema ≡ ok v
      → is_true v ≡ true
      → filter_next child predicate (suc rounds) s w ≡ ok (some t, s1, w1)
  unfolding filter_next
  filter_kept rounds s s1 w w1 t (Value.boolean true) e stays judged holds =
      rw (e, stays, judged) refl
  filter_kept rounds s s1 w w1 t (Value.boolean false) e stays judged holds = cc
  filter_kept rounds s s1 w w1 t (Value.integer n) e stays judged holds = cc
  filter_kept rounds s s1 w w1 t (Value.varchar bytes) e stays judged holds = cc

  filter_dropped :
      (rounds : ℕ) (s s1 : S) (w w1 : World) (t : Tuple) (v : Value)
      → child.next s w ≡ ok (some t, s1, w1)
      → child.schema s1 w1 ≡ schema
      → evaluate predicate t schema ≡ ok v
      → is_true v ≡ false
      → filter_next child predicate (suc rounds) s w ≡ filter_next child predicate rounds s1 w1
  unfolding filter_next
  filter_dropped rounds s s1 w w1 t (Value.boolean true) e stays judged fails = cc
  filter_dropped rounds s s1 w w1 t (Value.boolean false) e stays judged fails =
      rw (e, stays, judged) refl
  filter_dropped rounds s s1 w w1 t (Value.integer n) e stays judged fails =
      rw (e, stays, judged) refl
  filter_dropped rounds s s1 w w1 t (Value.varchar bytes) e stays judged fails =
      rw (e, stays, judged) refl

  -- More rounds than rows make no difference.
  enough :
      (rounds : ℕ) (s : S) (w : World) (ts : List Tuple)
      → length ts < rounds
      → All (λ (t : Tuple). evaluate predicate t schema ≡ ok (verdict t)) ts
      → (y : Yields child s w ts) → Stays child schema y
      → filter_next child predicate (suc rounds) s w ≡ filter_next child predicate rounds s w
  unfolding Stays
  enough zero s w ts few judged y stays = absurd (omega arith)
  enough (suc r) s w ts few judged (no_more t1 s1 v1 w1 e) stays =
      filter_none (suc r) s s1 w w1 e ∙ sym (filter_none r s s1 w w1 e)
  enough (suc r) s w ts few judged (one_more t1 s1 v1 w1 t rest e more) stays =
      elim (Bool-cases (is_true (verdict t))) [
        | inl holds ↦
            filter_kept (suc r) s s1 w w1 t (verdict t) e stays.0 judged.0 holds
            ∙ sym (filter_kept r s s1 w w1 t (verdict t) e stays.0 judged.0 holds)
        | inr fails ↦
            filter_dropped (suc r) s s1 w w1 t (verdict t) e stays.0 judged.0 fails
            ∙ (enough r s1 w1 rest (omega arith) judged.1 more stays.1
                ∙ sym (filter_dropped r s s1 w w1 t (verdict t) e stays.0 judged.0 fails))
      ]

  -- If the child yields some rows, its schema after each of them is the same, and the predicate has a
  -- verdict on each row under that schema, then the filter with more rounds than rows yields just the
  -- rows with the verdict true, in their order.
  pub filter-Yields :
      (rounds : ℕ) (s : S) (w : World) (ts : List Tuple)
      → length ts < rounds
      → All (λ (t : Tuple). evaluate predicate t schema ≡ ok (verdict t)) ts
      → (y : Yields child s w ts) → Stays child schema y
      → Yields (filter_executor child predicate rounds) s w (keep verdict ts)
  unfolding keep Stays
  filter-Yields zero s w ts few judged y stays = absurd (omega arith)
  filter-Yields (suc r) s w ts few judged (no_more t1 s1 v1 w1 e) stays =
      no_more s s1 w w1 (filter_none r s s1 w w1 e)
  filter-Yields (suc r) s w ts few judged (one_more t1 s1 v1 w1 t rest e more) stays =
      let later : Yields (filter_executor child predicate (suc r)) s1 w1 (keep verdict rest) =
        filter-Yields (suc r) s1 w1 rest (omega arith) judged.1 more stays.1 in
      elim (Bool-cases (is_true (verdict t))) [
        | inl holds ↦ rw holds (
            one_more s s1 w w1 t (keep verdict rest)
              (filter_kept r s s1 w w1 t (verdict t) e stays.0 judged.0 holds) later)
        | inr fails ↦ rw fails (
            Yields-next (filter_executor child predicate (suc r)) s s1 w w1 (keep verdict rest)
              (filter_dropped r s s1 w w1 t (verdict t) e stays.0 judged.0 fails
                ∙ sym (enough r s1 w1 rest (omega arith) judged.1 more stays.1))
              later)
      ]

module _ {S : Type 0} (child : Executor S) where
  collect_none :
      (rounds : ℕ) (s s1 : S) (w w1 : World)
      → child.next s w ≡ ok (none, s1, w1)
      → collect_rids child (suc rounds) s w ≡ ok ([], s1, w1)
  unfolding collect_rids
  collect_none rounds s s1 w w1 e = rw e refl

  collect_one :
      (rounds : ℕ) (s s1 s2 : S) (w w1 w2 : World) (t : Tuple) (rids : List Rid)
      → child.next s w ≡ ok (some t, s1, w1)
      → collect_rids child rounds s1 w1 ≡ ok (rids, s2, w2)
      → collect_rids child (suc rounds) s w
        ≡ ok ((elim t.rid [ none ↦ rids | some rid ↦ rid ∷ rids ]), s2, w2)
  unfolding collect_rids
  collect_one rounds s s1 s2 w w1 w2 t rids e rest = elim (Option-cases t.rid) [
    | inl k ↦ ground (arith, e, rest, k)
    | inr (rid, k) ↦ ground (arith, e, rest, k)
  ]

  -- If the child yields some rows, the loop that collects record ids, with more rounds than rows,
  -- returns those of the rows in their order.
  pub collect_rids_lem :
      (rounds : ℕ) (s : S) (w : World) (ts : List Tuple)
      → length ts < rounds
      → Yields child s w ts
      → (s' : S) × (w' : World) × (collect_rids child rounds s w ≡ ok (rids_of ts, s', w'))
  unfolding rids_of
  collect_rids_lem zero s w ts few y = absurd (omega arith)
  collect_rids_lem (suc r) s w ts few (no_more t1 s1 v1 w1 e) = (s1, w1, collect_none r s s1 w w1 e)
  collect_rids_lem (suc r) s w ts few (one_more t1 s1 v1 w1 t rest e more) =
      let (s2, w2, runs) = collect_rids_lem r s1 w1 rest (omega arith) more in
      (s2, w2, collect_one r s s1 s2 w w1 w2 t (rids_of rest) e runs)
