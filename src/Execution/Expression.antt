-- ===== src/Execution/Expression.antt =====
-- Predicates over a row (src/execution/expression.rs).
use dip_v.Base.{ℕ, not, Bool, Result, ok, ◌>>=◌}
use dip_v.Types
use dip_v.Types.{Value}
use dip_v.Catalog.Schema.{Schema}
use dip_v.Storage.Tuple.{Tuple, get_value}

pub data BinaryOperator : Type 0 where
  eq not_eq lt gt lt_eq gt_eq : BinaryOperator

pub data Expression : Type 0 where
  constant : Value → Expression
  column : ℕ → Expression
  binary : Expression → BinaryOperator → Expression → Expression

-- The comparisons of the `Binary` arm.
unfoldable pub apply_op : BinaryOperator → Value → Value → Bool
apply_op BinaryOperator.eq l r = Types.eq l r
apply_op BinaryOperator.not_eq l r = not (Types.eq l r)
apply_op BinaryOperator.lt l r = Types.lt l r
apply_op BinaryOperator.gt l r = Types.lt r l
apply_op BinaryOperator.lt_eq l r = Types.le l r
apply_op BinaryOperator.gt_eq l r = Types.le r l

-- `Expression::evaluate`
unfoldable pub evaluate : Expression → Tuple → Schema → Result Value
unfolding apply_op
evaluate (Expression.constant v) tuple schema = ok v
evaluate (Expression.column idx) tuple schema = get_value tuple schema idx
evaluate (Expression.binary left op right) tuple schema = do
  l_val ← evaluate left tuple schema
  r_val ← evaluate right tuple schema
  ok (Value.boolean (apply_op op l_val r_val))
