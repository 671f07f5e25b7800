-- ===== src/Catalog/Schema/RoundTrip.antt =====
-- A schema reads back from its bytes (src/catalog/schema.rs).
use dip_v.Base.{
  ℕ, ◌+◌, ◌%◌, ◌^◌, ◌<◌, ◌≡◌, true, List, [], ◌∷◌, ◌++◌, length, length-append, ltb, leb, All,
  arith, ok,
}
use dip_v.Base.Bytes.{
  slice_from, slice_from_append, u32_to_le_bytes, u32_round_trip, length-u32_to_le_bytes,
}
use dip_v.Types.RoundTrip.{slice-u32}
use dip_v.Catalog.Column
use dip_v.Catalog.Column.{Column, IsColumn}
use dip_v.Catalog.Column.RoundTrip
use dip_v.Catalog.Schema.{Schema, IsSchema, columns_to_bytes, to_bytes, read_columns, from_bytes}
use mathlib.Core.List.{append_assoc, append-nil}

read_columns_lem :
    (cols : List Column) (pre rest : List ℕ) (offset : ℕ) (seen : List Column)
    → All IsColumn cols
    → offset ≡ length pre
    → read_columns (length cols) (pre ++ (columns_to_bytes cols ++ rest)) offset seen
      ≡ ok (seen ++ cols, offset + length (columns_to_bytes cols))
unfolding read_columns columns_to_bytes
read_columns_lem [] pre rest offset seen h p =
    let e : offset + 0 ≡ offset = omega arith in rw (append-nil, e)
read_columns_lem (c ∷ cols) pre rest offset seen h p =
    rw (append_assoc, inside, here, Column.RoundTrip.column_bytes_round_trip, h.0)
      (rw (← append_assoc pre (Column.to_bytes c) (columns_to_bytes cols ++ rest)) (
        rw
          (read_columns_lem cols (pre ++ Column.to_bytes c) rest
            (offset + length (Column.to_bytes c)) (seen ++ (c ∷ [])) h.1 next)
          (rw (append_assoc, total))))
  where
    after : List ℕ
    after = columns_to_bytes cols ++ rest

    size :
        length (pre ++ (Column.to_bytes c ++ after))
        ≡ length pre + (length (Column.to_bytes c) + length after)
    size = omega (
      arith,
      length-append pre (Column.to_bytes c ++ after),
      length-append (Column.to_bytes c) after,
    )

    inside : ltb offset (length (pre ++ (Column.to_bytes c ++ after))) ≡ true
    inside = ground (arith, size, Column.RoundTrip.length-to_bytes c)

    here : slice_from (pre ++ (Column.to_bytes c ++ after)) offset ≡ ok (Column.to_bytes c ++ after)
    here = slice_from_append pre (Column.to_bytes c ++ after) offset p

    next : offset + length (Column.to_bytes c) ≡ length (pre ++ Column.to_bytes c)
    next = omega (arith, length-append pre (Column.to_bytes c))

    total :
        offset + length (Column.to_bytes c) + length (columns_to_bytes cols)
        ≡ offset + length (Column.to_bytes c ++ columns_to_bytes cols)
    total = omega (arith, length-append (Column.to_bytes c) (columns_to_bytes cols))

-- For fewer than 2^32 columns, each with a name that is UTF-8 text of fewer than 2^32 bytes,
-- whatever bytes follow, `from_bytes` reads the schema that `to_bytes` wrote, and the number of
-- its bytes.
pub schema_bytes_round_trip :
    (s : Schema) (rest : List ℕ)
    → IsSchema s
    → from_bytes (to_bytes s ++ rest) ≡ ok (s, length (to_bytes s))
unfolding from_bytes to_bytes
schema_bytes_round_trip s rest h = rw (
  whole,
  append_assoc,
  long,
  slice-u32,
  u32_round_trip,
  h.short,
  read_columns_lem s.columns (u32_to_le_bytes n) rest 4 [] h.columns (rw length-u32_to_le_bytes),
  size,
)
  where
    n : ℕ
    n = length s.columns

    whole : n % 2 ^ 32 ≡ n
    whole = let k : length s.columns < 2 ^ 32 = h.short in omega arith

    long : leb 4 (length (u32_to_le_bytes n ++ (columns_to_bytes s.columns ++ rest))) ≡ true
    long = ground (
      arith,
      length-append (u32_to_le_bytes n) (columns_to_bytes s.columns ++ rest),
      length-u32_to_le_bytes n,
    )

    size :
        4 + length (columns_to_bytes s.columns)
        ≡ length (u32_to_le_bytes n ++ columns_to_bytes s.columns)
    size = omega (
      arith,
      length-append (u32_to_le_bytes n) (columns_to_bytes s.columns),
      length-u32_to_le_bytes n,
    )
