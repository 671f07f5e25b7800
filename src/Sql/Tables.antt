-- ===== src/Sql/Tables.antt =====
-- The columns of a CREATE TABLE (src/sql/engine.rs).
use dip_v.Base.{List, [], ◌∷◌, Bool, true, false}
use dip_v.Types.{TypeId}
use dip_v.Catalog.Column.{Column, new_with_primary}
use dip_v.Catalog.Schema.{Schema}
use dip_v.Sql.Syntax.{DataType, ColumnOption, ColumnDef}
use dip_v.Sql.Answer.{DipError, Answer, done, error, ◌>>=◌}

unfoldable pub column_type : DataType → Answer TypeId
column_type DataType.int = done TypeId.integer
column_type DataType.integer = done TypeId.integer
column_type DataType.boolean = done TypeId.boolean
column_type DataType.varchar = done TypeId.varchar
column_type DataType.string = done TypeId.varchar
column_type DataType.other = error DipError.unsupported

-- The loop over a column's options.
unfoldable pub is_primary : List ColumnOption → Bool
is_primary [] = false
is_primary (ColumnOption.unique true ∷ options) = true
is_primary (ColumnOption.unique false ∷ options) = is_primary options
is_primary (ColumnOption.other ∷ options) = is_primary options

unfoldable pub schema_columns : List ColumnDef → Answer (List Column)
schema_columns [] = done []
schema_columns (col ∷ cols) = do
  type_id ← column_type col.data_type
  rest ← schema_columns cols
  done (new_with_primary col.name.text type_id (is_primary col.options) ∷ rest)

-- The schema that `handle_create_table` gives to the catalog.
unfoldable pub table_schema : List ColumnDef → Answer Schema
table_schema columns = do
  schema_cols ← schema_columns columns
  done (record { columns = schema_cols })
