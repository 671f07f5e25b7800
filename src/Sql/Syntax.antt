-- ===== src/Sql/Syntax.antt =====
-- The syntax trees of the external parser, as far as src/sql/engine.rs looks into them. `other`
-- stands for the shapes that it does not tell apart.
use dip_v.Base.{List, ℕ, Bool}

-- A name: its `value`, and its text as `to_string` gives it.
pub record Ident : Type 0 where
  pub value : List ℕ
  pub text : List ℕ

-- A number is its text.
pub data Literal : Type 0 where
  number : List ℕ → Literal
  boolean : Bool → Literal
  single_quoted_string : List ℕ → Literal
  other : Literal

pub data Operator : Type 0 where
  eq not_eq lt gt lt_eq gt_eq other : Operator

pub data Expr : Type 0 where
  binary_op : Expr → Operator → Expr → Expr
  identifier : Ident → Expr
  value : Literal → Expr
  other : Expr

pub data DataType : Type 0 where
  int integer boolean varchar string other : DataType

-- `unique` has the flag `is_primary`.
pub data ColumnOption : Type 0 where
  unique : Bool → ColumnOption
  other : ColumnOption

pub record ColumnDef : Type 0 where
  pub name : Ident
  pub data_type : DataType
  pub options : List ColumnOption
