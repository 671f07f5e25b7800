-- ===== src/Sql/Tests.antt =====
-- Statements to try (src/sql/engine.rs).
use dip_v.Base.{◌≡◌, refl, arith, List, [], ◌∷◌, ok, some, none, true}
use dip_v.Base.Int.{pos, negsuc, to_bits}
use dip_v.Base.Bytes.{index, u32_to_le_bytes}
use dip_v.Types
use dip_v.Types.{Value, TypeId}
use dip_v.Catalog.Column
use dip_v.Catalog.Schema.{Schema, column_count, get_col_index, position, bytes_eq}
use dip_v.Catalog.Manager.{TableMetadata}
use dip_v.Storage.TableHeap.{from_first_page_id}
use dip_v.Storage.BPlusTree.{from_root_page_id}
use dip_v.Execution.SeqScan
use dip_v.Storage.Tuple
use dip_v.Execution.Expression.{Expression, BinaryOperator, evaluate}
use dip_v.Sql.Syntax.{Ident, Literal, Operator, Expr, DataType, ColumnOption}
use dip_v.Sql.Answer.{DipError, done, error}
use dip_v.Sql.Literals
use dip_v.Sql.Literals.{parse_i32, values_batch}
use dip_v.Sql.Predicates
use dip_v.Sql.Tables
use dip_v.Sql.Tables.{table_schema}
use dip_v.Sql.Plans
use dip_v.Sql.Plans.{Plan, index_choice, query_plan}
use dip_v.Sql.Typed.{IsText, Taken, values_batch-Matches}
use dip_v.Sql.Evaluates.{evaluate-parse_expression}

-- A primary key `a`.
abbrev accounts : Schema
accounts = record {
  columns = record { name = 97 ∷ []; type_id = TypeId.integer; is_primary = true } ∷ [];
}

abbrev ident_a : Ident
ident_a = record { value = 97 ∷ []; text = 97 ∷ [] }

abbrev rows : List (List Expr)
rows = (Expr.value (Literal.number (55 ∷ [])) ∷ []) ∷ []

abbrev a_is_7 : Expr
a_is_7 =
    Expr.binary_op (Expr.identifier ident_a) Operator.eq (Expr.value (Literal.number (55 ∷ [])))

-- "-2147483648", "2147483648" and "+" as an i32
least_parses :
    parse_i32 (45 ∷ 50 ∷ 49 ∷ 52 ∷ 55 ∷ 52 ∷ 56 ∷ 51 ∷ 54 ∷ 52 ∷ 56 ∷ []) ≡ some (negsuc 2147483647)
unfolding Literals.parse_i32 Literals.natural Literals.digits Literals.negative
least_parses = refl

too_large : parse_i32 (50 ∷ 49 ∷ 52 ∷ 55 ∷ 52 ∷ 56 ∷ 51 ∷ 54 ∷ 52 ∷ 56 ∷ []) ≡ none
unfolding Literals.parse_i32 Literals.natural Literals.digits Literals.positive
too_large = refl

only_sign : parse_i32 (43 ∷ []) ≡ none
unfolding Literals.parse_i32 Literals.natural
only_sign = refl

create_accounts :
    table_schema (
      record {
        name = ident_a;
        data_type = DataType.int;
        options = ColumnOption.other ∷ ColumnOption.unique true ∷ [];
      }
      ∷ [])
    ≡ done accounts
unfolding Tables.table_schema Tables.schema_columns Tables.column_type Column.new_with_primary
    Tables.is_primary
create_accounts = refl

wrong_type :
    values_batch accounts ((Expr.value (Literal.boolean true) ∷ []) ∷ [])
    ≡ error DipError.type_mismatch
unfolding Literals.values_batch column_count Literals.row_values Literals.column_at
    Literals.or_crash index Literals.row_value Literals.literal_value
wrong_type = refl

taken : values_batch accounts rows ≡ done ((Value.integer (pos 7) ∷ []) ∷ [])
unfolding Literals.values_batch column_count Literals.row_values Literals.column_at
    Literals.or_crash index Literals.row_value Literals.literal_value Literals.number_value
    Literals.parse_i32 Literals.natural Literals.digits Literals.positive
taken = refl

abbrev no_index : TableMetadata
no_index = record {
  name = 116 ∷ [];
  schema = accounts;
  table = from_first_page_id 0;
  page_stats = [];
  indexes = [];
}

abbrev a_eq_7 : Expression
a_eq_7 =
    Expression.binary (Expression.column 0) BinaryOperator.eq
      (Expression.constant (Value.integer (pos 7)))

by_index : index_choice ((0, from_root_page_id 3) ∷ []) a_eq_7 ≡ some (0, pos 7)
unfolding index_choice Plans.contains_key
by_index = refl

other_column : index_choice ((1, from_root_page_id 3) ∷ []) a_eq_7 ≡ none
unfolding index_choice Plans.contains_key
other_column = refl

scan_everything : query_plan no_index none ≡ done (Plan.seq_scan SeqScan.new)
unfolding query_plan
scan_everything = refl

values_batch-Matches_example : Taken accounts rows
unfolding IsText
values_batch-Matches_example = values_batch-Matches accounts rows ((tt, tt), tt)

evaluate-parse_expression_example :
    (v : Value) × (evaluate
        (Expression.binary
          (Expression.column 0)
          BinaryOperator.eq
          (Expression.constant (Value.integer (pos 7))))
        (Tuple.new (7 ∷ 0 ∷ 0 ∷ 0 ∷ []))
        accounts
      ≡ ok v)
unfolding Predicates.parse_expression Tuple.from_values get_col_index position bytes_eq
    Predicates.constant_of Predicates.bin_op Literals.number_value Literals.parse_i32
    Literals.natural Literals.digits Literals.positive Types.get_type_id column_count Tuple.new
    Tuple.values_to_bytes Types.to_bytes u32_to_le_bytes to_bits
evaluate-parse_expression_example =
    evaluate-parse_expression accounts a_is_7
      (Expression.binary (Expression.column 0) BinaryOperator.eq
        (Expression.constant (Value.integer (pos 7))))
      (Value.integer (pos 7) ∷ []) (Tuple.new (7 ∷ 0 ∷ 0 ∷ 0 ∷ [])) refl
      (refl, (omega arith, omega arith), tt) refl
