-- ===== src/Catalog/Stats/Prune.antt =====
-- A page is skipped only if none of its rows satisfies the predicate (src/catalog/stats.rs).
use dip_v.Base.{
  ℕ, zero, suc, ◌+◌, ◌≡◌, ◌≢◌, refl, true, false, ◌==◌, Bool-cases, Option-cases, inl, inr, List,
  [], ◌∷◌, none, some, arith, if◌then◌else◌, ok, >>=-eq-ok, ok-injective,
}
use dip_v.Base.Bytes.{index}
use dip_v.Types.{Value, le}
use dip_v.Types.Order.{le_refl, le_trans, le_of_lt, le_of_not-lt, lt_of_lt-le, lt_of_le-lt, eq→≡}
use dip_v.Catalog.Schema.{Schema}
use dip_v.Storage.Tuple.{Tuple, from_values, get_value}
use dip_v.Storage.Tuple.RoundTrip.{Matches, get_value-index}
use dip_v.Execution.Expression.{Expression, BinaryOperator, evaluate, apply_op}
use dip_v.Catalog.Stats.{
  ColumnStats, PageStats, new, lookup, new_column, update_column, update_entry, update, update_row,
  range_meets, might_satisfy,
}

-- The value lies in the range that is kept for its column.
abbrev pub InRange : Value → ColumnStats → Type 0
InRange v s = (le s.least v ≡ true) × (le v s.greatest ≡ true)

pub record Covers (p : PageStats) (i : ℕ) (v : Value) : Type 0 where
  pub stats : ColumnStats
  pub found : lookup i p.columns ≡ some stats
  pub bounds : InRange v stats

update_column_new : (s : ColumnStats) (v : Value) → InRange v (update_column s v)
unfolding update_column
update_column_new s v = ground (arith, le_refl v, le_of_not-lt v s.least, le_of_not-lt s.greatest v)

update_column_old : (s : ColumnStats) (v w : Value) → InRange w s → InRange w (update_column s v)
unfolding update_column
update_column_old s v w h = ground (
  arith,
  le_of_lt v s.least,
  le_trans v s.least w,
  le_of_lt s.greatest v,
  le_trans w s.greatest v,
)

lookup-update_entry :
    (k j : ℕ) (v : Value) (m : List (ℕ × ColumnStats))
    → lookup j (update_entry k v m) ≡ (
        if k == j
        then (elim (lookup k m) [ none ↦ some (new_column v) | some s ↦ some (update_column s v) ])
        else lookup j m)
unfolding lookup update_entry
lookup-update_entry k j v [] = ground arith
lookup-update_entry k j v ((i, s) ∷ m) = ground (arith, lookup-update_entry k j v m)

Covers-update_self : (p : PageStats) (k : ℕ) (v : Value) → Covers (update p k v) k v
unfolding update
Covers-update_self p k v = elim (Option-cases (lookup k p.columns)) [
  | inl e ↦ record {
    stats = new_column v;
    found = ground (arith, lookup-update_entry k k v p.columns);
    bounds = unfold new_column in (le_refl v, le_refl v);
  }
  | inr (s, e) ↦ record {
    stats = update_column s v;
    found = ground (arith, lookup-update_entry k k v p.columns);
    bounds = update_column_new s v;
  }
]

Covers-update :
    (p : PageStats) (k : ℕ) (v : Value) (j : ℕ) (w : Value)
    → Covers p j w
    → Covers (update p k v) j w
unfolding update
Covers-update p k v j w h = elim (Bool-cases (k == j)) [
  | inl e ↦ record {
    stats = update_column h.stats v;
    found = ground (arith, lookup-update_entry k j v p.columns, h.found);
    bounds = update_column_old h.stats v w h.bounds;
  }
  | inr e ↦ record {
    stats = h.stats;
    found = ground (arith, lookup-update_entry k j v p.columns, h.found);
    bounds = h.bounds;
  }
]

Covers-update_row :
    (vals : List Value) (i : ℕ) (p : PageStats) (j : ℕ) (w : Value)
    → Covers p j w
    → Covers (update_row i vals p) j w
unfolding update_row
Covers-update_row [] i p j w h = h
Covers-update_row (v ∷ vals) i p j w h =
    Covers-update_row vals (i + 1) (update p i v) j w (Covers-update p i v j w h)

Covers-update_row_self :
    (vals : List Value) (i : ℕ) (p : PageStats) (n j : ℕ) (w : Value)
    → index vals n ≡ ok w
    → j ≡ i + n
    → Covers (update_row i vals p) j w
unfolding update_row index
Covers-update_row_self [] i p n j w h e = cc
Covers-update_row_self (v ∷ vals) i p zero j w h e =
    let same : v ≡ w = ok-injective v w h in
    let here : j ≡ i = omega arith in
    rw (here, ← same) (Covers-update_row vals (i + 1) (update p i v) i v (Covers-update_self p i v))
Covers-update_row_self (v ∷ vals) i p (suc n) j w h e =
    Covers-update_row_self vals (i + 1) (update p i v) n j w h (omega arith)

-- The zone map of a page after its rows were written one after another.
unfoldable pub add_rows : List (List Value) → PageStats → PageStats
unfolding update_row
add_rows [] p = p
add_rows (row ∷ rows) p = add_rows rows (update_row 0 row p)

Covers-add_rows_old :
    (rows : List (List Value)) (p : PageStats) (j : ℕ) (w : Value)
    → Covers p j w
    → Covers (add_rows rows p) j w
unfolding add_rows
Covers-add_rows_old [] p j w h = h
Covers-add_rows_old (row ∷ rows) p j w h =
    Covers-add_rows_old rows (update_row 0 row p) j w (Covers-update_row row 0 p j w h)

Covers-add_rows :
    (rows : List (List Value)) (p : PageStats) (k : ℕ) (row : List Value) (j : ℕ) (w : Value)
    → index rows k ≡ ok row
    → index row j ≡ ok w
    → Covers (add_rows rows p) j w
unfolding add_rows index
Covers-add_rows [] p k row j w h e = cc
Covers-add_rows (r ∷ rows) p zero row j w h e =
    Covers-add_rows_old rows (update_row 0 r p) j w
      (Covers-update_row_self r 0 p j j w (rw (ok-injective r row h) e) (omega arith))
Covers-add_rows (r ∷ rows) p (suc k) row j w h e =
    Covers-add_rows rows (update_row 0 r p) k row j w h e

range_sound :
    (s : ColumnStats) (op : BinaryOperator) (v c : Value)
    → InRange v s
    → apply_op op v c ≡ true
    → range_meets s op c ≡ true
unfolding range_meets apply_op
range_sound s BinaryOperator.eq v c h e = rw (← eq→≡ v c e) (ground arith)
range_sound s BinaryOperator.not_eq v c h e = refl
range_sound s BinaryOperator.lt v c h e = lt_of_le-lt s.least v c h.0 e
range_sound s BinaryOperator.gt v c h e = lt_of_lt-le c v s.greatest e h.1
range_sound s BinaryOperator.lt_eq v c h e = le_trans s.least v c h.0 e
range_sound s BinaryOperator.gt_eq v c h e = le_trans c v s.greatest e h.1

-- If `might_satisfy` says no of the zone map of some rows, none of these rows that has the types
-- of the schema satisfies the predicate: `evaluate` does not return true on its tuple.
pub might_satisfy_sound :
    (rows : List (List Value)) (k : ℕ) (row : List Value) (schema : Schema) (t : Tuple)
    (predicate : Expression)
    → index rows k ≡ ok row
    → Matches row schema.columns
    → from_values row schema ≡ ok t
    → might_satisfy (add_rows rows new) predicate ≡ false
    → evaluate predicate t schema ≢ ok (Value.boolean true)
unfolding might_satisfy evaluate
might_satisfy_sound rows k row schema t
      (Expression.binary (Expression.column idx) op (Expression.constant c)) at_k m made no_match
      matched =
    let (v, read, test) =
      >>=-eq-ok (get_value t schema idx) (λ l. ok (Value.boolean (apply_op op l c))) matched in
    let seen =
      Covers-add_rows rows new k row idx v at_k (get_value-index row schema t idx v m made read) in
    ground (arith, seen.found, range_sound seen.stats op v c seen.bounds)
might_satisfy_sound rows k row schema t p at_k m made no_match matched = cc
