-- ===== src/Catalog/Column/RoundTrip.antt =====
-- A column reads back from its bytes (src/catalog/column.rs).
use dip_v.Base.{
  ℕ, ◌+◌, ◌%◌, ◌^◌, ◌<◌, ◌≡◌, refl, ◌∙◌, Bool, true, List, [], ◌∷◌, ◌++◌, length, length-append,
  leb, ◌==◌, arith, if◌then◌else◌, ok,
}
use dip_v.Base.Bytes.{
  index, index_append, index_skip, slice, slice_mid, u32_to_le_bytes, u32_round_trip,
  length-u32_to_le_bytes,
}
use dip_v.Types.{TypeId}
use dip_v.Types.RoundTrip.{slice-u32}
use dip_v.Catalog.Column.{Column, IsColumn, type_code, type_of_code, to_bytes, from_bytes}
use mathlib.Core.List.{append_assoc}

pub type_of_code-type_code : (t : TypeId) → type_of_code (type_code t) ≡ ok t
unfolding type_of_code type_code
type_of_code-type_code t = ground arith

primary_flag : (b : Bool) → ((if b then 1 else 0) == 1) ≡ b
primary_flag b = ground arith

second : (a b : ℕ) (rest : List ℕ) → index (a ∷ b ∷ rest) 1 ≡ ok b
unfolding index
second a b rest = refl

pub length-to_bytes : (c : Column) → length (to_bytes c) ≡ 4 + length c.name + 2
unfolding to_bytes
length-to_bytes c = omega (
  arith,
  length-append (u32_to_le_bytes (length c.name % 2 ^ 32))
      (c.name ++ (type_code c.type_id ∷ (if c.is_primary then 1 else 0) ∷ [])),
  length-u32_to_le_bytes (length c.name % 2 ^ 32),
  length-append c.name (type_code c.type_id ∷ (if c.is_primary then 1 else 0) ∷ []),
)

-- For a column whose name is UTF-8 text of fewer than 2^32 bytes, whatever bytes follow,
-- `from_bytes` reads the column that `to_bytes` wrote, and says how many bytes that took.
pub column_bytes_round_trip :
    (c : Column) (rest : List ℕ)
    → IsColumn c
    → from_bytes (to_bytes c ++ rest) ≡ ok (c, length (to_bytes c))
column_bytes_round_trip c rest h = rw length-to_bytes (
    unfold from_bytes to_bytes in
    rw (
      whole, append_assoc, append_assoc, long4, slice-u32, u32_round_trip, h.short, long, text,
      h.text, code, type_of_code-type_code, flag, primary_flag,
    ))
  where
    n : ℕ
    n = length c.name

    flag_byte : ℕ
    flag_byte = if c.is_primary then 1 else 0

    head : List ℕ
    head = u32_to_le_bytes n

    whole : n % 2 ^ 32 ≡ n
    whole = let k : length c.name < 2 ^ 32 = h.short in omega arith

    size :
        length (head ++ (c.name ++ (type_code c.type_id ∷ flag_byte ∷ rest)))
        ≡ 4 + n + 2 + length rest
    size = omega (
      arith,
      length-append head (c.name ++ (type_code c.type_id ∷ flag_byte ∷ rest)),
      length-u32_to_le_bytes n,
      length-append c.name (type_code c.type_id ∷ flag_byte ∷ rest),
    )

    long4 : leb 4 (length (head ++ (c.name ++ (type_code c.type_id ∷ flag_byte ∷ rest)))) ≡ true
    long4 = ground (arith, size)

    long :
        leb (4 + n + 2) (length (head ++ (c.name ++ (type_code c.type_id ∷ flag_byte ∷ rest))))
        ≡ true
    long = ground (arith, size)

    text :
        slice (head ++ (c.name ++ (type_code c.type_id ∷ flag_byte ∷ rest))) 4 (4 + n) ≡ ok c.name
    text = slice_mid head c.name _ 4 (4 + n) (rw length-u32_to_le_bytes) (rw length-u32_to_le_bytes)

    code :
        index (head ++ (c.name ++ (type_code c.type_id ∷ flag_byte ∷ rest))) (4 + n)
        ≡ ok (type_code c.type_id)
    code = rw (← append_assoc head c.name (type_code c.type_id ∷ flag_byte ∷ rest)) (
        index_append (head ++ c.name) _ _ _
          (omega (arith, length-append head c.name, length-u32_to_le_bytes n)))

    flag :
        index (head ++ (c.name ++ (type_code c.type_id ∷ flag_byte ∷ rest))) (4 + n + 1)
        ≡ ok flag_byte
    flag = rw (← append_assoc head c.name (type_code c.type_id ∷ flag_byte ∷ rest)) (
        index_skip (head ++ c.name) (type_code c.type_id ∷ flag_byte ∷ rest) (4 + n + 1) 1
          (omega (arith, length-append head c.name, length-u32_to_le_bytes n))
        ∙ second (type_code c.type_id) flag_byte rest)
