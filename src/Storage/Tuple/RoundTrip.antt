-- ===== src/Storage/Tuple/RoundTrip.antt =====
-- Every column of a tuple reads back (src/storage/tuple.rs).
use dip_v.Base.{
  ℕ, zero, suc, ◌+◌, ◌%◌, ◌^◌, ◌<◌, ◌≡◌, refl, sym, ap, subst, ◌∙◌, true, List, [], ◌∷◌, ◌++◌,
  length, length-append, take, drop, take-append-drop, ◌==◌, arith, none, ok, ok-injective,
  >>=-eq-ok,
}
use dip_v.Base.Bytes.{
  index, index_append, index_total, slice, slice_mid, slice_from, slice_from_append,
  u32_to_le_bytes, u32_round_trip, length-u32_to_le_bytes,
}
use dip_v.Types
use dip_v.Types.{Value, TypeId, IsValue, get_type_id}
use dip_v.Types.RoundTrip
use dip_v.Catalog.Column.{Column}
use dip_v.Catalog.Schema.{Schema, column_count}
use dip_v.Storage.Tuple.{Tuple, values_to_bytes, from_values, width, skip, get_value}
use mathlib.Core.List.{append_assoc}

-- The values have the types of the columns, one for one.
abbrev pub Matches : List Value → List Column → Type 0
Matches [] [] = Unit
Matches (v ∷ vs) (c ∷ cs) = (get_type_id v ≡ c.type_id) × IsValue v × Matches vs cs
Matches _ _ = ⊥

pub length-Matches : (vs : List Value) (cs : List Column) → Matches vs cs → length vs ≡ length cs
length-Matches [] [] h = refl
length-Matches [] (c ∷ cs) h = absurd h
length-Matches (v ∷ vs) [] h = absurd h
length-Matches (v ∷ vs) (c ∷ cs) h = ap suc (length-Matches vs cs h.2)

-- The walk over one column: its width is the length of the value's bytes.
width-to_bytes :
    (v : Value) (pre rest : List ℕ) (offset : ℕ)
    → IsValue v
    → offset ≡ length pre
    → width (pre ++ (Types.to_bytes v ++ rest)) offset (get_type_id v)
      ≡ ok (length (Types.to_bytes v))
unfolding width Types.to_bytes get_type_id
width-to_bytes (Value.integer a) pre rest offset h p = rw length-u32_to_le_bytes
width-to_bytes (Value.boolean b) pre rest offset h p = refl
width-to_bytes (Value.varchar bytes) pre rest offset h p =
    rw (whole, append_assoc, prefix, u32_round_trip, h.2, total)
  where
    n : ℕ
    n = length bytes

    whole : n % 2 ^ 32 ≡ n
    whole = omega arith

    prefix :
        slice (pre ++ (u32_to_le_bytes n ++ (bytes ++ rest))) offset (offset + 4)
        ≡ ok (u32_to_le_bytes n)
    prefix =
        slice_mid pre (u32_to_le_bytes n) (bytes ++ rest) offset (offset + 4) p
          (omega (arith, length-u32_to_le_bytes n))

    total : 4 + n ≡ length (u32_to_le_bytes n ++ bytes)
    total = omega (arith, length-append (u32_to_le_bytes n) bytes, length-u32_to_le_bytes n)

skip_lem :
    (n : ℕ) (vs : List Value) (cs before : List Column) (pre : List ℕ) (i offset : ℕ)
    → Matches vs cs
    → n < length vs
    → i ≡ length before
    → offset ≡ length pre
    → skip (pre ++ values_to_bytes vs) (before ++ cs) n i offset
      ≡ ok (offset + length (values_to_bytes (take n vs)))
unfolding skip values_to_bytes take
skip_lem zero vs cs before pre i offset h k p q = let e : offset + 0 ≡ offset = omega arith in rw e
skip_lem (suc n) [] cs before pre i offset h k p q = absurd (omega arith)
skip_lem (suc n) (v ∷ vs) [] before pre i offset h k p q = absurd h
skip_lem (suc n) (v ∷ vs) (c ∷ cs) before pre i offset h k p q =
    let len : ℕ = length (Types.to_bytes v) in
    let next : skip (pre ++ (Types.to_bytes v ++ values_to_bytes vs)) (before ++ (c ∷ cs)) n (i + 1)
          (offset + len)
        ≡ ok (offset + len + length (values_to_bytes (take n vs))) =
      rw
        (
          ← append_assoc pre (Types.to_bytes v) (values_to_bytes vs),
          ← append_assoc before (c ∷ []) cs,
        )
        (skip_lem n vs cs (before ++ (c ∷ [])) (pre ++ Types.to_bytes v) (i + 1) (offset + len) h.2
          (omega arith) (omega (arith, length-append before (c ∷ [])))
          (omega (arith, length-append pre (Types.to_bytes v)))) in
    let total : offset + len + length (values_to_bytes (take n vs))
        ≡ offset + length (Types.to_bytes v ++ values_to_bytes (take n vs)) =
      omega (arith, length-append (Types.to_bytes v) (values_to_bytes (take n vs))) in
    rw (
      index_append before c cs i p,
      ← h.0,
      width-to_bytes v pre (values_to_bytes vs) offset h.1 q,
      next,
      total,
    )

values_to_bytes-append :
    (us vs : List Value) → values_to_bytes (us ++ vs) ≡ values_to_bytes us ++ values_to_bytes vs
unfolding values_to_bytes
values_to_bytes-append [] vs = refl
values_to_bytes-append (u ∷ us) vs = rw (values_to_bytes-append us vs, append_assoc)

tail_at :
    (vs : List Value) (n offset : ℕ)
    → offset ≡ length (values_to_bytes (take n vs))
    → slice_from (values_to_bytes vs) offset ≡ ok (values_to_bytes (drop n vs))
tail_at vs n offset p =
    let e : values_to_bytes vs ≡ values_to_bytes (take n vs) ++ values_to_bytes (drop n vs) =
      ap values_to_bytes (sym (take-append-drop n vs))
      ∙ values_to_bytes-append (take n vs) (drop n vs) in
    rw e (slice_from_append (values_to_bytes (take n vs)) (values_to_bytes (drop n vs)) offset p)

drop-index :
    {A : Type 0} (xs : List A) (n : ℕ) (x : A)
    → index xs n ≡ ok x
    → (n < length xs) × (drop n xs ≡ x ∷ drop (suc n) xs)
unfolding index drop
drop-index [] n x h = cc
drop-index (y ∷ xs) zero x h = (omega arith, ground arith)
drop-index (y ∷ xs) (suc n) x h = let ih = drop-index xs n x h in (omega arith, ih.1)

Matches-index :
    (vs : List Value) (cs : List Column) (n : ℕ) (v : Value)
    → Matches vs cs
    → index vs n ≡ ok v
    → (c : Column) × (index cs n ≡ ok c) × (get_type_id v ≡ c.type_id) × IsValue v
unfolding index
Matches-index [] cs n v h k = cc
Matches-index (u ∷ vs) [] n v h k = absurd h
Matches-index (u ∷ vs) (c ∷ cs) zero v h k =
    let e : u ≡ v = ok-injective u v k in (c, refl, rw (← e) h.0, rw (← e) h.1)
Matches-index (u ∷ vs) (c ∷ cs) (suc n) v h k = Matches-index vs cs n v h.2 k

-- A row whose values have the types of the schema is accepted, and `get_value` returns each of
-- its values.
pub get_value-from_values :
    (values : List Value) (schema : Schema) (i : ℕ) (v : Value)
    → Matches values schema.columns
    → index values i ≡ ok v
    → (t : Tuple) × (from_values values schema ≡ ok t) × (get_value t schema i ≡ ok v)
unfolding from_values column_count
get_value-from_values values schema i v h k =
    let (c, at_i, typed, valid) = Matches-index values schema.columns i v h k in
    let (inside, split) = drop-index values i v k in
    let same : (length values == length schema.columns) ≡ true =
      ground (arith, length-Matches values schema.columns h) in
    (
      record { bytes = values_to_bytes values; rid = none },
      rw same,
      unfold get_value in
          rw
            (
              skip_lem i values schema.columns [] [] 0 0 h inside refl refl,
              at_i,
              tail_at values i (0 + length (values_to_bytes (take i values))) (omega arith),
              split,
              ← typed,
            )
            (unfold values_to_bytes in
              RoundTrip.from_bytes-to_bytes v (values_to_bytes (drop (suc i) values)) valid),
    )

-- A column that reads is a column of the row.
pub get_value-index :
    (values : List Value) (schema : Schema) (t : Tuple) (i : ℕ) (v : Value)
    → Matches values schema.columns
    → from_values values schema ≡ ok t
    → get_value t schema i ≡ ok v
    → index values i ≡ ok v
unfolding get_value
get_value-index values schema t i v m made h =
    let (offset, _, rest) = >>=-eq-ok (skip t.bytes schema.columns i 0 0) _ h in
    let (col, at_i, _) = >>=-eq-ok (index schema.columns i) _ rest in
    let inside : i < length values =
      omega (arith, drop-index schema.columns i col at_i, length-Matches values schema.columns m) in
    let (w, there) = index_total values i inside in
    let (t', made', read) = get_value-from_values values schema i w m there in
    let same : t' ≡ t = cc (made, made') in
    cc (there, h, subst (λ x. get_value x schema i ≡ ok w) same read)
