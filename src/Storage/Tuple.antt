-- ===== src/Storage/Tuple.antt =====
-- A row as bytes (src/storage/tuple.rs).
pub mod RoundTrip
use dip_v.Base.{
  ℕ, zero, suc, ◌+◌, ◌≡◌, Option, none, some, List, [], ◌∷◌, ◌++◌, length, ◌==◌, Result, ok, ◌>>=◌,
  ◌>>◌, assert,
}
use dip_v.Base.Bytes.{index, slice, slice_from, u32_from_le_bytes}
use dip_v.Types
use dip_v.Types.{Value, TypeId}
use dip_v.Catalog.Column.{Column}
use dip_v.Catalog.Schema.{Schema, column_count}
use dip_v.Storage.Rid.{Rid}

-- `bytes` is the field `data`.
pub record Tuple : Type 0 where
  pub bytes : List ℕ
  pub rid : Option Rid

-- `Tuple::new`
unfoldable pub new : List ℕ → Tuple
new bytes = record { bytes = bytes; rid = none }

-- `Tuple::new_with_rid`
unfoldable pub new_with_rid : List ℕ → Rid → Tuple
new_with_rid bytes rid = record { bytes = bytes; rid = some rid }

-- `Tuple::set_rid`
unfoldable pub set_rid : Tuple → Rid → Tuple
set_rid t rid = record t { rid = some rid }

-- The loop of `from_values`.
unfoldable pub values_to_bytes : List Value → List ℕ
values_to_bytes [] = []
values_to_bytes (v ∷ vs) = Types.to_bytes v ++ values_to_bytes vs

-- `Tuple::from_values`
unfoldable pub from_values : List Value → Schema → Result Tuple
from_values values schema = do
  assert (length values == column_count schema)
  ok (record { bytes = values_to_bytes values; rid = none })

-- How many bytes the column at `offset` takes.
unfoldable pub width : List ℕ → ℕ → TypeId → Result ℕ
width bytes offset TypeId.integer = ok 4
width bytes offset TypeId.boolean = ok 1
width bytes offset TypeId.varchar = do
  len_bytes ← slice bytes offset (offset + 4)
  len ← u32_from_le_bytes len_bytes
  ok (4 + len)

-- The loop of `get_value`: rounds left, the index of the column and the offset.
unfoldable pub skip : List ℕ → List Column → ℕ → ℕ → ℕ → Result ℕ
skip bytes columns zero i offset = ok offset
skip bytes columns (suc rounds) i offset = do
  col ← index columns i
  len ← width bytes offset col.type_id
  skip bytes columns rounds (i + 1) (offset + len)

-- `Tuple::get_value`
unfoldable pub get_value : Tuple → Schema → ℕ → Result Value
get_value t schema col_idx = do
  offset ← skip t.bytes schema.columns col_idx 0 0
  target_col ← index schema.columns col_idx
  tail ← slice_from t.bytes offset
  Types.from_bytes tail target_col.type_id

-- `Tuple::size`
unfoldable pub size : Tuple → ℕ
size t = length t.bytes
