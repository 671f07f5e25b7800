-- ===== src/Sql/Evaluates.antt =====
-- A parsed predicate can be evaluated on every row of its table (src/sql/engine.rs).
use dip_v.Base.{
  ℕ, suc, ◌<◌, ◌≡◌, refl, subst, none, some, Option, Bool, true, false, List, [], ◌∷◌, length,
  arith, ok, if◌then◌else◌,
}
use dip_v.Base.Bytes.{index_total}
use dip_v.Types.{Value}
use dip_v.Catalog.Column.{Column}
use dip_v.Catalog.Schema.{Schema, get_col_index, position}
use dip_v.Storage.Tuple.{Tuple, from_values, get_value}
use dip_v.Storage.Tuple.RoundTrip.{Matches, length-Matches, get_value-from_values}
use dip_v.Execution.Expression.{Expression, BinaryOperator, apply_op, evaluate}
use dip_v.Sql.Syntax.{Literal, Expr}
use dip_v.Sql.Answer.{Answer, DipError, done, error, crash, ◌>>=◌}
use dip_v.Sql.Literals.{number_value}
use dip_v.Sql.Predicates.{bin_op, constant_of, parse_expression}

>>=-eq-done :
    {X Y : Type 0} {y : Y} (r : Answer X) (next : X → Answer Y)
    → (r >>= next) ≡ done y
    → (x : X) × (r ≡ done x) × (next x ≡ done y)
>>=-eq-done (done x) next h = (x, refl, h)
>>=-eq-done (error e) next h = cc
>>=-eq-done crash next h = cc

position_step :
    (cs : List Column) (found : Option ℕ) (test : Bool) (i : ℕ)
    → ((j : ℕ) → found ≡ some j → j < length cs)
    → (if test then some 0 else elim found [ none ↦ none | some j ↦ some (suc j) ]) ≡ some i
    → i < suc (length cs)
position_step cs found true i ih h = ground (arith, h)
position_step cs none false i ih h = cc
position_step cs (some j) false i ih h = let p = ih j refl in ground (arith, h)

position-lt :
    (test : Column → Bool) (cs : List Column) (i : ℕ) → position test cs ≡ some i → i < length cs
unfolding position
position-lt test [] i h = cc
position-lt test (c ∷ cs) i h =
    position_step cs (position test cs) (test c) i (position-lt test cs) h

constant_lem :
    (l : Literal) (p : Expression)
    → constant_of l ≡ done p
    → (v : Value) × (p ≡ Expression.constant v)
unfolding constant_of
constant_lem (Literal.number n) p h = (Value.integer (number_value n), cc)
constant_lem (Literal.boolean b) p h = (Value.boolean b, cc)
constant_lem (Literal.single_quoted_string s) p h = (Value.varchar s, cc)
constant_lem Literal.other p h = cc

column_found :
    (found : Option ℕ) (p : Expression)
    → elim found [
      | none ↦ error DipError.column_not_found
      | some idx ↦ done (Expression.column idx)
    ]
      ≡ done p
    → (i : ℕ) × (found ≡ some i) × (p ≡ Expression.column i)
column_found none p h = cc
column_found (some i) p h = (i, refl, cc)

column_lem :
    (schema : Schema) (values : List Value) (t : Tuple) (i : ℕ)
    → Matches values schema.columns
    → from_values values schema ≡ ok t
    → i < length schema.columns
    → (v : Value) × (get_value t schema i ≡ ok v)
column_lem schema values t i m made below =
    let (w, there) = index_total values i (omega (arith, length-Matches values schema.columns m)) in
    let (t', made', read) = get_value-from_values values schema i w m there in
    let same : t' ≡ t = cc (made, made') in (w, subst (λ x. get_value x schema i ≡ ok w) same read)

evaluate_binary :
    (l r : Expression) (o : BinaryOperator) (t : Tuple) (schema : Schema) (a b : Value)
    → evaluate l t schema ≡ ok a
    → evaluate r t schema ≡ ok b
    → evaluate (Expression.binary l o r) t schema ≡ ok (Value.boolean (apply_op o a b))
unfolding evaluate
evaluate_binary l r o t schema a b h k = rw (h, k)

-- An expression that `parse_expression` accepts has a value on the tuple of every row that has
-- the types of the schema: `evaluate` does not panic.
pub evaluate-parse_expression :
    (schema : Schema) (expr : Expr) (p : Expression) (values : List Value) (t : Tuple)
    → parse_expression expr schema ≡ done p
    → Matches values schema.columns
    → from_values values schema ≡ ok t
    → (v : Value) × (evaluate p t schema ≡ ok v)
unfolding parse_expression get_col_index
evaluate-parse_expression schema (Expr.binary_op left op right) p values t h m made =
    let (l, l_reads, h1) = >>=-eq-done (parse_expression left schema) _ h in
    let (r, r_reads, h2) = >>=-eq-done (parse_expression right schema) _ h1 in
    let (o, _, e) = >>=-eq-done (bin_op op) _ h2 in
    let (a, l_value) = evaluate-parse_expression schema left l values t l_reads m made in
    let (b, r_value) = evaluate-parse_expression schema right r values t r_reads m made in
    let whole : Expression.binary l o r ≡ p = cc in
    (
      Value.boolean (apply_op o a b),
      subst (λ x. evaluate x t schema ≡ ok (Value.boolean (apply_op o a b))) whole
          (evaluate_binary l r o t schema a b l_value r_value),
    )
evaluate-parse_expression schema (Expr.identifier ident) p values t h m made =
    let (i, found, e) = column_found (get_col_index schema ident.text) p h in
    let (v, reads) = column_lem schema values t i m made (position-lt _ schema.columns i found) in
    (v, rw e (unfold evaluate in reads))
evaluate-parse_expression schema (Expr.value l) p values t h m made =
    let (v, e) = constant_lem l p h in (v, rw e (unfold evaluate in refl))
evaluate-parse_expression schema Expr.other p values t h m made = cc
