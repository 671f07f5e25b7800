-- ===== src/Catalog/Tests.antt =====
-- A table to try the catalog's records on (src/catalog).
use dip_v.Base.{◌≡◌, ◌≢◌, refl, true, List, [], ◌∷◌, ◌++◌, length, arith, none, some, ok}
use dip_v.Base.Int.{pos, negsuc}
use dip_v.Base.Bytes.{index}
use dip_v.Types.{Value, TypeId, is_utf8, get_type_id, lt, compare_value}
use dip_v.Catalog.Column
use dip_v.Catalog.Column.{Column, IsColumn}
use dip_v.Catalog.Column.RoundTrip.{column_bytes_round_trip}
use dip_v.Catalog.Schema
use dip_v.Catalog.Schema.{Schema, IsSchema, column_count}
use dip_v.Catalog.Schema.RoundTrip.{schema_bytes_round_trip}
use dip_v.Catalog.Stats
use dip_v.Catalog.Stats.{
  PageStats, ColumnStats, lookup, might_satisfy, range_meets, update_row, update, update_entry,
  update_column, new_column,
}
use dip_v.Catalog.Stats.RoundTrip.{stats_bytes_round_trip}
use dip_v.Catalog.Stats.Prune.{add_rows, might_satisfy_sound}
use dip_v.Catalog.Manager
use dip_v.Catalog.Manager.{CatalogManager, find, find_named, save_metadata, load_metadata}
use dip_v.Catalog.Manager.RoundTrip.{load-save_metadata}
use dip_v.Storage.TableHeap.{from_first_page_id}
use dip_v.Storage.BPlusTree.{from_root_page_id}
use dip_v.Execution.Expression.{Expression, BinaryOperator, evaluate}
use dip_v.Storage.Tuple.{Tuple, from_values, values_to_bytes}

abbrev id_column : Column
id_column = record { name = 105 ∷ 100 ∷ []; type_id = TypeId.integer; is_primary = true }

id_column-IsColumn : IsColumn id_column
unfolding is_utf8
id_column-IsColumn = record {
  bytes = (omega arith, (omega arith, tt));
  text = refl;
  short = omega arith;
}

column_bytes_round_trip_example :
    Column.from_bytes (Column.to_bytes id_column ++ (7 ∷ []))
    ≡ ok (id_column, length (Column.to_bytes id_column))
column_bytes_round_trip_example = column_bytes_round_trip id_column (7 ∷ []) id_column-IsColumn

abbrev schema : Schema
schema = record { columns = id_column ∷ [] }

schema_bytes_round_trip_example :
    Schema.from_bytes (Schema.to_bytes schema ++ []) ≡ ok (schema, length (Schema.to_bytes schema))
schema_bytes_round_trip_example =
    schema_bytes_round_trip schema []
      (record { columns = (id_column-IsColumn, tt); short = omega arith })

abbrev stats : PageStats
stats = record {
  columns = (0, record { least = Value.integer (negsuc 2); greatest = Value.integer (pos 9) }) ∷ [];
}

stats_bytes_round_trip_example :
    Stats.from_bytes (Stats.to_bytes stats ++ []) ≡ ok (stats, length (Stats.to_bytes stats))
unfolding lookup get_type_id
stats_bytes_round_trip_example = stats_bytes_round_trip stats [] (record {
  entries = (
    refl,
    omega arith,
    record {
      least = (omega arith, omega arith);
      greatest = (omega arith, omega arith);
      same_type = refl;
    },
    tt,
  );
  short = omega arith;
})

abbrev rows : List (List Value)
rows = (Value.integer (pos 4) ∷ []) ∷ (Value.integer (pos 9) ∷ []) ∷ []

abbrev tuple : Tuple
tuple = record { bytes = values_to_bytes (Value.integer (pos 9) ∷ []); rid = none }

-- `id > 20`
abbrev predicate : Expression
predicate =
    Expression.binary (Expression.column 0) BinaryOperator.gt
      (Expression.constant (Value.integer (pos 20)))

might_satisfy_sound_example : evaluate predicate tuple schema ≢ ok (Value.boolean true)
unfolding index get_type_id from_values column_count might_satisfy range_meets add_rows update_row
    update update_entry update_column new_column lookup lt compare_value
might_satisfy_sound_example =
    might_satisfy_sound rows 1 (Value.integer (pos 9) ∷ []) schema tuple predicate refl
      (refl, (omega arith, omega arith), tt) refl refl

-- One table with an integer key and an index on its column 0.
abbrev catalog : CatalogManager
catalog = record {
  tables =
      (
        97 ∷ [],
        record {
          name = 97 ∷ [];
          schema = record { columns = id_column ∷ [] };
          table = from_first_page_id 5;
          page_stats = [];
          indexes = (0, from_root_page_id 6) ∷ [];
        },
      )
      ∷ [];
}

load-save_metadata_example : load_metadata Manager.new (some (save_metadata catalog)) ≡ ok catalog
unfolding is_utf8 find find_named
load-save_metadata_example = load-save_metadata Manager.new catalog (record {
  tables = (
    refl,
    record {
      named = refl;
      text = refl;
      short = omega arith;
      schema = record { columns = (id_column-IsColumn, tt); short = omega arith };
      root = omega arith;
      few_indexes = omega arith;
      indexes = (refl, (omega arith, omega arith), tt);
      few_stats = omega arith;
      page_stats = tt;
    },
    tt,
  );
  few = omega arith;
})
