-- ===== src/Sql/Literals.antt =====
-- The values of an INSERT (src/sql/engine.rs).
use dip_v.Base.{
  ℕ, zero, suc, ◌+◌, ◌-◌, ◌*◌, ◌^◌, ◌&&◌, Option, none, some, List, [], ◌∷◌, length, ltb, leb, ◌==◌,
  if◌then◌else◌, Result, ok,
}
use dip_v.Base.Int.{ℤ, pos, negsuc}
use dip_v.Base.Bytes.{index}
use dip_v.Types.{Value, TypeId}
use dip_v.Catalog.Column.{Column}
use dip_v.Catalog.Schema.{Schema, column_count}
use dip_v.Sql.Syntax.{Literal, Expr}
use dip_v.Sql.Answer.{DipError, Answer, done, error, crash, ◌>>=◌, ◌>>◌, require}

-- The decimal digits of `parse`, after the number read so far.
unfoldable pub digits : ℕ → List ℕ → Option ℕ
digits n [] = some n
digits n (b ∷ bs) =
    let rest = digits (10 * n + (b - 48)) bs in if leb 48 b && leb b 57 then rest else none

unfoldable pub natural : List ℕ → Option ℕ
natural [] = none
natural (b ∷ bs) = digits 0 (b ∷ bs)

unfoldable pub positive : ℕ → Option ℤ
positive n = if ltb n (2 ^ 31) then some (pos n) else none

unfoldable pub negative : ℕ → Option ℤ
negative zero = some (pos 0)
negative (suc n) = if ltb n (2 ^ 31) then some (negsuc n) else none

-- `n.parse::<i32>()`: an optional sign, at least one digit, and the range of the type
unfoldable pub parse_i32 : List ℕ → Option ℤ
parse_i32 [] = none
parse_i32 (b ∷ bs) =
    if b == 45
    then elim (natural bs) [ none ↦ none | some n ↦ negative n ]
    else if b == 43
    then elim (natural bs) [ none ↦ none | some n ↦ positive n ]
    else elim (natural (b ∷ bs)) [ none ↦ none | some n ↦ positive n ]

-- `n.parse().unwrap_or(0)`
unfoldable pub number_value : List ℕ → ℤ
number_value text = elim (parse_i32 text) [ none ↦ pos 0 | some n ↦ n ]

-- The value of a literal in a column of the type.
unfoldable pub literal_value : TypeId → Literal → Answer Value
literal_value TypeId.integer (Literal.number n) = done (Value.integer (number_value n))
literal_value TypeId.boolean (Literal.boolean b) = done (Value.boolean b)
literal_value TypeId.varchar (Literal.single_quoted_string s) = done (Value.varchar s)
literal_value _ _ = error DipError.type_mismatch

unfoldable pub row_value : TypeId → Expr → Answer Value
row_value target (Expr.value v) = literal_value target v
row_value target _ = error DipError.type_mismatch

unfoldable pub or_crash {ℓ} : {A : Type ℓ} → Result A → Answer A
or_crash (ok x) = done x
or_crash _ = crash

-- `schema.columns[i]`
unfoldable pub column_at : List Column → ℕ → Answer Column
column_at columns i = or_crash (index columns i)

-- The loop over the expressions of a row, from the column `i` on.
unfoldable pub row_values : List Column → ℕ → List Expr → Answer (List Value)
row_values columns i [] = done []
row_values columns i (expr ∷ exprs) = do
  col ← column_at columns i
  val ← row_value col.type_id expr
  rest ← row_values columns (i + 1) exprs
  done (val ∷ rest)

-- The loop over the rows of `handle_insert`.
unfoldable pub values_batch : Schema → List (List Expr) → Answer (List (List Value))
values_batch schema [] = done []
values_batch schema (row ∷ rows) = do
  require (length row == column_count schema) DipError.type_mismatch
  values ← row_values schema.columns 0 row
  rest ← values_batch schema rows
  done (values ∷ rest)
