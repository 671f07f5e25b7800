-- ===== src/Catalog/Stats.antt =====
-- Zone maps: the least and the greatest value of each column of a page (src/catalog/stats.rs).
-- `columns` is a hash map; its list order stands for the order in which Rust walks over it.
pub mod RoundTrip
pub mod Prune
use dip_v.Base.{
  ℕ, zero, suc, ◌+◌, ◌%◌, ◌^◌, ◌<◌, ◌≡◌, Bool, true, false, List, [], ◌∷◌, ◌++◌, length, ltb, leb,
  ◌==◌, ◌&&◌, if◌then◌else◌, Option, none, some, All, Result, ok, fail, ◌>>=◌, ◌>>◌, guard,
}
use dip_v.Base.Bytes.{index, slice, slice_from, u32_to_le_bytes, u32_from_le_bytes}
use dip_v.Types
use dip_v.Types.{Value, TypeId, IsValue, get_type_id, lt, le}
use dip_v.Catalog.Column.{type_code, type_of_code}
use dip_v.Execution.Expression.{Expression, BinaryOperator}

pub record ColumnStats : Type 0 where
  pub least : Value
  pub greatest : Value

-- `ColumnStats::new`
unfoldable pub new_column : Value → ColumnStats
new_column val = record { least = val; greatest = val }

-- `ColumnStats::update`
unfoldable pub update_column : ColumnStats → Value → ColumnStats
update_column s val = record {
  least = if lt val s.least then val else s.least;
  greatest = if lt s.greatest val then val else s.greatest;
}

-- `ColumnStats::to_bytes`
unfoldable pub column_to_bytes : ColumnStats → List ℕ
column_to_bytes s =
    type_code (get_type_id s.least) ∷ (Types.to_bytes s.least ++ Types.to_bytes s.greatest)

-- `ColumnStats::read_value`: the value and the number of its bytes
unfoldable pub read_value : List ℕ → TypeId → Result (Value × ℕ)
read_value bytes TypeId.integer = do
  guard (leb 4 (length bytes))
  val ← Types.from_bytes bytes TypeId.integer
  ok (val, 4)
read_value bytes TypeId.boolean = do
  guard (leb 1 (length bytes))
  val ← Types.from_bytes bytes TypeId.boolean
  ok (val, 1)
read_value bytes TypeId.varchar = do
  guard (leb 4 (length bytes))
  four ← slice bytes 0 4
  len ← u32_from_le_bytes four
  guard (leb (4 + len) (length bytes))
  val ← Types.from_bytes bytes TypeId.varchar
  ok (val, 4 + len)

-- `ColumnStats::from_bytes`
unfoldable pub column_from_bytes : List ℕ → Result (ColumnStats × ℕ)
column_from_bytes bytes = do
  guard (leb 1 (length bytes))
  code ← index bytes 0
  type_id ← type_of_code code
  tail ← slice_from bytes 1
  (least, len1) ← read_value tail type_id
  tail' ← slice_from bytes (1 + len1)
  (greatest, len2) ← read_value tail' type_id
  ok (record { least = least; greatest = greatest }, 1 + len1 + len2)

pub record PageStats : Type 0 where
  pub columns : List (ℕ × ColumnStats)

-- `PageStats::new`
abbrev pub new : PageStats
new = record { columns = [] }

-- `HashMap::get`
unfoldable pub lookup : ℕ → List (ℕ × ColumnStats) → Option ColumnStats
lookup k [] = none
lookup k ((j, s) ∷ m) = if j == k then some s else lookup k m

-- `HashMap::insert`
unfoldable pub insert : ℕ → ColumnStats → List (ℕ × ColumnStats) → List (ℕ × ColumnStats)
insert col_idx s ((i, old) ∷ rest) =
    if i == col_idx then (col_idx, s) ∷ rest else (i, old) ∷ insert col_idx s rest
insert col_idx s [] = (col_idx, s) ∷ []

-- `entry(col_idx).and_modify(update).or_insert_with(new)`
unfoldable pub update_entry : ℕ → Value → List (ℕ × ColumnStats) → List (ℕ × ColumnStats)
update_entry k val [] = (k, new_column val) ∷ []
update_entry k val ((j, s) ∷ m) =
    if j == k then (j, update_column s val) ∷ m else (j, s) ∷ update_entry k val m

-- `PageStats::update`
unfoldable pub update : PageStats → ℕ → Value → PageStats
unfolding update_entry
update p col_idx val = record { columns = update_entry col_idx val p.columns }

-- The loop of `to_bytes`.
unfoldable pub entries_to_bytes : List (ℕ × ColumnStats) → List ℕ
entries_to_bytes [] = []
entries_to_bytes ((col_idx, s) ∷ m) =
    u32_to_le_bytes (col_idx % 2 ^ 32) ++ (column_to_bytes s ++ entries_to_bytes m)

-- `PageStats::to_bytes`
unfoldable pub to_bytes : PageStats → List ℕ
to_bytes p = u32_to_le_bytes (length p.columns % 2 ^ 32) ++ entries_to_bytes p.columns

-- The loop of `from_bytes`: rounds left, the offset and the map so far.
unfoldable pub read_entries :
    ℕ → List ℕ → ℕ → List (ℕ × ColumnStats) → Result (List (ℕ × ColumnStats) × ℕ)
read_entries zero bytes offset columns = ok (columns, offset)
read_entries (suc rounds) bytes offset columns = do
  guard (leb (offset + 4) (length bytes))
  four ← slice bytes offset (offset + 4)
  col_idx ← u32_from_le_bytes four
  tail ← slice_from bytes (offset + 4)
  (stats, len) ← column_from_bytes tail
  read_entries rounds bytes (offset + 4 + len) (insert col_idx stats columns)

-- `PageStats::from_bytes`
unfoldable pub from_bytes : List ℕ → Result (PageStats × ℕ)
from_bytes bytes = do
  guard (leb 4 (length bytes))
  four ← slice bytes 0 4
  num_entries ← u32_from_le_bytes four
  (columns, offset) ← read_entries num_entries bytes 4 []
  ok (record { columns = columns }, offset)

-- The comparisons of `might_satisfy`.
unfoldable pub range_meets : ColumnStats → BinaryOperator → Value → Bool
range_meets s BinaryOperator.eq c = le s.least c && le c s.greatest
range_meets s BinaryOperator.gt c = lt c s.greatest
range_meets s BinaryOperator.gt_eq c = le c s.greatest
range_meets s BinaryOperator.lt c = lt s.least c
range_meets s BinaryOperator.lt_eq c = le s.least c
range_meets s BinaryOperator.not_eq c = true

-- `PageStats::might_satisfy`
unfoldable pub might_satisfy : PageStats → Expression → Bool
unfolding range_meets
might_satisfy p (Expression.binary (Expression.column idx) op (Expression.constant c)) =
    elim (lookup idx p.columns) [ none ↦ true | some s ↦ range_meets s op c ]
might_satisfy p _ = true

-- The loop of `InsertExecutor::next` over the values of a row (src/execution/insert.rs).
unfoldable pub update_row : ℕ → List Value → PageStats → PageStats
unfolding update
update_row i [] p = p
update_row i (val ∷ vals) p = update_row (i + 1) vals (update p i val)
