-- ===== src/Sql/Predicates.antt =====
-- The expression of a WHERE clause or of an assignment (src/sql/engine.rs).
use dip_v.Base.{none, some}
use dip_v.Types.{Value}
use dip_v.Catalog.Schema.{Schema, get_col_index}
use dip_v.Execution.Expression.{Expression, BinaryOperator}
use dip_v.Sql.Syntax.{Literal, Operator, Expr}
use dip_v.Sql.Answer.{DipError, Answer, done, error, ◌>>=◌}
use dip_v.Sql.Literals.{number_value}

unfoldable pub bin_op : Operator → Answer BinaryOperator
bin_op Operator.eq = done BinaryOperator.eq
bin_op Operator.not_eq = done BinaryOperator.not_eq
bin_op Operator.lt = done BinaryOperator.lt
bin_op Operator.gt = done BinaryOperator.gt
bin_op Operator.lt_eq = done BinaryOperator.lt_eq
bin_op Operator.gt_eq = done BinaryOperator.gt_eq
bin_op Operator.other = error DipError.unsupported

unfoldable pub constant_of : Literal → Answer Expression
constant_of (Literal.number n) = done (Expression.constant (Value.integer (number_value n)))
constant_of (Literal.boolean b) = done (Expression.constant (Value.boolean b))
constant_of (Literal.single_quoted_string s) = done (Expression.constant (Value.varchar s))
constant_of Literal.other = error DipError.unsupported

-- `SQLEngine::parse_expression`
unfoldable pub parse_expression : Expr → Schema → Answer Expression
parse_expression (Expr.binary_op left op right) schema = do
  l_expr ← parse_expression left schema
  r_expr ← parse_expression right schema
  o ← bin_op op
  done (Expression.binary l_expr o r_expr)
parse_expression (Expr.identifier ident) schema = elim (get_col_index schema ident.text) [
  | none ↦ error DipError.column_not_found
  | some idx ↦ done (Expression.column idx)
]
parse_expression (Expr.value v) schema = constant_of v
parse_expression Expr.other schema = error DipError.unsupported
