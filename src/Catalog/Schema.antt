-- ===== src/Catalog/Schema.antt =====
-- The columns of a table and their bytes (src/catalog/schema.rs).
pub mod RoundTrip
use dip_v.Base.{
  ℕ, zero, suc, ◌+◌, ◌%◌, ◌^◌, ◌<◌, ◌≡◌, Bool, true, false, List, [], ◌∷◌, ◌++◌, length, ltb, leb,
  ◌==◌, ◌&&◌, if◌then◌else◌, not, All, Option, none, some, Result, ok, fail, ◌>>=◌, ◌>>◌, guard,
}
use dip_v.Base.Bytes.{slice, slice_from, u32_to_le_bytes, u32_from_le_bytes}
use dip_v.Types.{compare_bytes}
use dip_v.Catalog.Column
use dip_v.Catalog.Column.{Column, IsColumn}

pub record Schema : Type 0 where
  pub columns : List Column

-- `name == other` on strings
unfoldable pub bytes_eq : List ℕ → List ℕ → Bool
bytes_eq [] [] = true
bytes_eq (a ∷ as') (b ∷ bs) = (a == b) && bytes_eq as' bs
bytes_eq _ _ = false

-- `iter().position(test)`
unfoldable pub position : (Column → Bool) → List Column → Option ℕ
position test [] = none
position test (c ∷ cs) =
    let rest = position test cs in
    if test c then some 0 else elim rest [ none ↦ none | some i ↦ some (suc i) ]

-- `Schema::fixed_len`
unfoldable pub sum_fixed_len : List Column → ℕ
sum_fixed_len [] = 0
sum_fixed_len (c ∷ cs) = Column.fixed_len c + sum_fixed_len cs

unfoldable pub fixed_len : Schema → ℕ
fixed_len s = sum_fixed_len s.columns

-- `Schema::get_col_index`
unfoldable pub get_col_index : Schema → List ℕ → Option ℕ
get_col_index s name = position (λ c. bytes_eq c.name name) s.columns

-- `Schema::column_count`
unfoldable pub column_count : Schema → ℕ
column_count s = length s.columns

-- `Schema::get_primary_key_index`
unfoldable pub get_primary_key_index : Schema → Option ℕ
get_primary_key_index s = position (λ c. c.is_primary) s.columns

-- The loop of `to_bytes`.
unfoldable pub columns_to_bytes : List Column → List ℕ
columns_to_bytes [] = []
columns_to_bytes (c ∷ cs) = Column.to_bytes c ++ columns_to_bytes cs

-- `Schema::to_bytes`
unfoldable pub to_bytes : Schema → List ℕ
to_bytes s = u32_to_le_bytes (length s.columns % 2 ^ 32) ++ columns_to_bytes s.columns

-- The loop of `from_bytes`: rounds left, the offset and the columns so far.
unfoldable pub read_columns : ℕ → List ℕ → ℕ → List Column → Result (List Column × ℕ)
read_columns zero bytes offset columns = ok (columns, offset)
read_columns (suc rounds) bytes offset columns = do
  guard (ltb offset (length bytes))
  tail ← slice_from bytes offset
  (col, len) ← Column.from_bytes tail
  read_columns rounds bytes (offset + len) (columns ++ (col ∷ []))

-- `Schema::from_bytes`: the schema and the number of bytes read
unfoldable pub from_bytes : List ℕ → Result (Schema × ℕ)
from_bytes bytes = do
  guard (leb 4 (length bytes))
  four ← slice bytes 0 4
  num_cols ← u32_from_le_bytes four
  (columns, offset) ← read_columns num_cols bytes 4 []
  ok (record { columns = columns }, offset)

pub record IsSchema (s : Schema) : Type 0 where
  pub columns : All IsColumn s.columns
  pub short : length s.columns < 2 ^ 32
