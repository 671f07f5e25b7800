-- ===== src/Catalog/Column.antt =====
-- A column of a table and its bytes (src/catalog/column.rs).
pub mod RoundTrip
use dip_v.Base.{
  ℕ, ◌+◌, ◌%◌, ◌^◌, ◌<◌, ◌≡◌, Bool, true, false, List, [], ◌∷◌, ◌++◌, length, leb, ◌==◌,
  if◌then◌else◌, All, Result, ok, fail, ◌>>=◌, ◌>>◌, guard,
}
use dip_v.Base.Bytes.{IsByte, index, slice, u32_to_le_bytes, u32_from_le_bytes}
use dip_v.Types.{TypeId, is_utf8}

pub record Column : Type 0 where
  pub name : List ℕ
  pub type_id : TypeId
  pub is_primary : Bool

-- `Column::new`
unfoldable pub new : List ℕ → TypeId → Column
new name type_id = record { name = name; type_id = type_id; is_primary = false }

-- `Column::new_with_primary`
unfoldable pub new_with_primary : List ℕ → TypeId → Bool → Column
new_with_primary name type_id is_primary = record {
  name = name;
  type_id = type_id;
  is_primary = is_primary;
}

-- `Column::fixed_len`
unfoldable pub fixed_len : Column → ℕ
fixed_len c = elim c.type_id [ TypeId.integer ↦ 4 | TypeId.boolean ↦ 1 | TypeId.varchar ↦ 4 ]

unfoldable pub type_code : TypeId → ℕ
type_code TypeId.integer = 0
type_code TypeId.boolean = 1
type_code TypeId.varchar = 2

unfoldable pub type_of_code : ℕ → Result TypeId
type_of_code code =
    if code == 0
    then ok TypeId.integer
    else if code == 1
    then ok TypeId.boolean
    else if code == 2
    then ok TypeId.varchar
    else fail

-- `Column::to_bytes`
unfoldable pub to_bytes : Column → List ℕ
to_bytes c =
    u32_to_le_bytes (length c.name % 2 ^ 32)
    ++ (c.name ++ (type_code c.type_id ∷ (if c.is_primary then 1 else 0) ∷ []))

-- `Column::from_bytes`: the column and the number of bytes read
unfoldable pub from_bytes : List ℕ → Result (Column × ℕ)
from_bytes bytes = do
  guard (leb 4 (length bytes))
  four ← slice bytes 0 4
  name_len ← u32_from_le_bytes four
  guard (leb (4 + name_len + 2) (length bytes))
  name ← slice bytes 4 (4 + name_len)
  guard (is_utf8 name)
  code ← index bytes (4 + name_len)
  type_id ← type_of_code code
  primary ← index bytes (4 + name_len + 1)
  ok (record { name = name; type_id = type_id; is_primary = primary == 1 }, 4 + name_len + 2)

-- A name is a Rust `String` whose length fits the prefix.
pub record IsColumn (c : Column) : Type 0 where
  pub bytes : All IsByte c.name
  pub text : is_utf8 c.name ≡ true
  pub short : length c.name < 2 ^ 32
