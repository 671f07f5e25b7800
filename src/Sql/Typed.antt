-- ===== src/Sql/Typed.antt =====
-- An INSERT hands only rows of the schema's types to the executor (src/sql/engine.rs).
use dip_v.Base.{
  ℕ, zero, suc, ◌+◌, ◌≡◌, ◌⊎◌, inl, inr, refl, ap, subst, Option, none, some, if◌then◌else◌, List,
  [], ◌∷◌, ◌++◌, length, length-append, arith, All, true, false, Bool, ◌==◌,
}
use dip_v.Base.Int.{ℤ, pos, IsI32}
use dip_v.Base.Bytes.{index_append}
use dip_v.Types.{Value, TypeId, IsValue, get_type_id}
use dip_v.Catalog.Column.{Column}
use dip_v.Catalog.Schema.{Schema, column_count}
use dip_v.Storage.Tuple.RoundTrip.{Matches}
use dip_v.Sql.Syntax.{Literal, Expr}
use dip_v.Sql.Answer.{DipError, done, error}
use dip_v.Sql.Literals.{
  natural, positive, negative, parse_i32, number_value, literal_value, row_value, or_crash,
  column_at, row_values, values_batch,
}
use mathlib.Core.List.{append_assoc}

-- The strings of a statement are text that fits its length prefix.
unfoldable pub IsText : Expr → Type 0
IsText (Expr.value (Literal.single_quoted_string s)) = IsValue (Value.varchar s)
IsText _ = Unit

positive-IsI32 : (n : ℕ) (a : ℤ) → positive n ≡ some a → IsI32 a
unfolding positive
positive-IsI32 n a h = ground (arith, h)

negative-IsI32 : (n : ℕ) (a : ℤ) → negative n ≡ some a → IsI32 a
unfolding negative
negative-IsI32 zero a h = ground (arith, h)
negative-IsI32 (suc n) a h = ground (arith, h)

signed :
    (convert : ℕ → Option ℤ) (found : Option ℕ) (a : ℤ)
    → ((n : ℕ) (b : ℤ) → convert n ≡ some b → IsI32 b)
    → elim found [ none ↦ none | some n ↦ convert n ] ≡ some a
    → IsI32 a
signed convert none a ok_of h = cc
signed convert (some n) a ok_of h = ok_of n a h

parsed :
    (minus plus : Bool) (after whole : Option ℕ) (a : ℤ)
    → (if minus
        then elim after [ none ↦ none | some n ↦ negative n ]
        else if plus
        then elim after [ none ↦ none | some n ↦ positive n ]
        else elim whole [ none ↦ none | some n ↦ positive n ])
      ≡ some a
    → IsI32 a
parsed true plus after whole a h = signed negative after a negative-IsI32 h
parsed false true after whole a h = signed positive after a positive-IsI32 h
parsed false false after whole a h = signed positive whole a positive-IsI32 h

or_zero :
    (found : Option ℤ)
    → ((a : ℤ) → found ≡ some a → IsI32 a)
    → IsI32 (elim found [ none ↦ pos 0 | some n ↦ n ])
or_zero none h = (omega arith, omega arith)
or_zero (some a) h = h a refl

parse_i32-IsI32 : (text : List ℕ) (a : ℤ) → parse_i32 text ≡ some a → IsI32 a
unfolding parse_i32
parse_i32-IsI32 [] a h = cc
parse_i32-IsI32 (b ∷ bs) a h = parsed (b == 45) (b == 43) (natural bs) (natural (b ∷ bs)) a h

number_value-IsI32 : (text : List ℕ) → IsI32 (number_value text)
unfolding number_value
number_value-IsI32 text = or_zero (parse_i32 text) (parse_i32-IsI32 text)

-- A value that is taken has the type of its column.
literal_value_lem :
    (t : TypeId) (l : Literal)
    → IsText (Expr.value l)
    → ((v : Value) × (literal_value t l ≡ done v) × (get_type_id v ≡ t) × IsValue v)
      ⊎ (literal_value t l ≡ error DipError.type_mismatch)
unfolding literal_value get_type_id IsText
literal_value_lem TypeId.integer (Literal.number n) h = inl (_, refl, refl, number_value-IsI32 n)
literal_value_lem TypeId.integer (Literal.boolean b) h = inr refl
literal_value_lem TypeId.integer (Literal.single_quoted_string s) h = inr refl
literal_value_lem TypeId.integer Literal.other h = inr refl
literal_value_lem TypeId.boolean (Literal.number n) h = inr refl
literal_value_lem TypeId.boolean (Literal.boolean b) h = inl (_, refl, refl, tt)
literal_value_lem TypeId.boolean (Literal.single_quoted_string s) h = inr refl
literal_value_lem TypeId.boolean Literal.other h = inr refl
literal_value_lem TypeId.varchar (Literal.number n) h = inr refl
literal_value_lem TypeId.varchar (Literal.boolean b) h = inr refl
literal_value_lem TypeId.varchar (Literal.single_quoted_string s) h = inl (_, refl, refl, h)
literal_value_lem TypeId.varchar Literal.other h = inr refl

row_value_lem :
    (t : TypeId) (e : Expr)
    → IsText e
    → ((v : Value) × (row_value t e ≡ done v) × (get_type_id v ≡ t) × IsValue v)
      ⊎ (row_value t e ≡ error DipError.type_mismatch)
unfolding row_value
row_value_lem t (Expr.value l) h = literal_value_lem t l h
row_value_lem t (Expr.binary_op a o b) h = inr refl
row_value_lem t (Expr.identifier i) h = inr refl
row_value_lem t Expr.other h = inr refl

column_at-append :
    (before cs : List Column) (c : Column) (i : ℕ)
    → i ≡ length before
    → column_at (before ++ (c ∷ cs)) i ≡ done c
unfolding column_at or_crash
column_at-append before cs c i p = ap or_crash (index_append before c cs i p)

row_values_lem :
    (before cs : List Column) (i : ℕ) (es : List Expr)
    → i ≡ length before
    → length es ≡ length cs
    → All IsText es
    → ((vs : List Value) × (row_values (before ++ cs) i es ≡ done vs) × Matches vs cs)
      ⊎ (row_values (before ++ cs) i es ≡ error DipError.type_mismatch)
unfolding row_values
row_values_lem before [] i [] p e h = inl ([], refl, tt)
row_values_lem before (c ∷ cs) i [] p e h = absurd (omega arith)
row_values_lem before [] i (x ∷ es) p e h = absurd (omega arith)
row_values_lem before (c ∷ cs) i (x ∷ es) p e (text, h) = elim (row_value_lem c.type_id x text) [
  | inl (v, reads, typed, valid) ↦
      elim (row_values_lem (before ++ (c ∷ [])) cs (i + 1) es
        (omega (arith, length-append before (c ∷ []))) (omega arith) h) [
          | inl (vs, runs, rest) ↦
              let later : row_values (before ++ (c ∷ cs)) (i + 1) es ≡ done vs =
                subst (λ x. row_values x (i + 1) es ≡ done vs) (append_assoc before (c ∷ []) cs)
                  runs in
              inl
                (v ∷ vs, rw (column_at-append before cs c i p, reads, later), (typed, valid, rest))
          | inr bad ↦
              let later : row_values (before ++ (c ∷ cs)) (i + 1) es
                  ≡ error DipError.type_mismatch =
                subst (λ x. row_values x (i + 1) es ≡ error DipError.type_mismatch)
                  (append_assoc before (c ∷ []) cs) bad in
              inr (rw (column_at-append before cs c i p, reads, later))
        ]
  | inr bad ↦ inr (rw (column_at-append before cs c i p, bad))
]

-- The rows are taken whole and typed, or refused with a type mismatch.
unfoldable pub Taken : Schema → List (List Expr) → Type 0
Taken schema rows =
    ((batch : List (List Value)) × (values_batch schema rows ≡ done batch)
      × (length batch ≡ length rows)
      × All (λ values. Matches values schema.columns) batch)
    ⊎ (values_batch schema rows ≡ error DipError.type_mismatch)

-- What the loop makes of one row and of the rows after it.
batch_step :
    (schema : Schema) (row : List Expr) (rows : List (List Expr)) (sized : Bool)
    → (length row == length schema.columns) ≡ sized
    → All IsText row
    → Taken schema rows
    → Taken schema (row ∷ rows)
unfolding Taken values_batch column_count
batch_step schema row rows false e h later = inr (rw e)
batch_step schema row rows true e h later =
    elim (row_values_lem [] schema.columns 0 row refl (ground (arith, e)) h) [
      | inl (vs, made, typed) ↦ elim later [
        | inl (batch, runs, size, all) ↦
            inl (vs ∷ batch, rw (e, made, runs), ap suc size, (typed, all))
        | inr bad ↦ inr (rw (e, made, bad))
      ]
      | inr bad ↦ inr (rw (e, bad))
    ]

-- If the strings of an INSERT are UTF-8 text of fewer than 2^32 bytes, the loop that reads its
-- rows, before any is inserted, never panics: it returns as many rows, each with one value of
-- its type for each column of the schema, or a type mismatch.
pub values_batch-Matches :
    (schema : Schema) (rows : List (List Expr)) → All (All IsText) rows → Taken schema rows
unfolding Taken values_batch column_count
values_batch-Matches schema [] h = inl ([], refl, refl, tt)
values_batch-Matches schema (row ∷ rows) (texts, h) =
    batch_step schema row rows (length row == length schema.columns) refl texts
      (values_batch-Matches schema rows h)
