-- ===== src/Catalog/Stats/RoundTrip.antt =====
-- A zone map reads back from its bytes (src/catalog/stats.rs).
use dip_v.Base.{
  ℕ, ◌+◌, ◌%◌, ◌^◌, ◌<◌, ◌≡◌, refl, Bool, true, List, [], ◌∷◌, ◌++◌, length, length-append, leb,
  none, arith, ok,
}
use dip_v.Base.Bytes.{
  index, slice, slice_mid, slice_from, slice_from_append, u32_to_le_bytes, u32_round_trip,
  length-u32_to_le_bytes,
}
use dip_v.Base.Int.{ℤ}
use dip_v.Types
use dip_v.Types.{Value, TypeId, IsValue, get_type_id}
use dip_v.Types.RoundTrip
use dip_v.Types.RoundTrip.{slice-u32}
use dip_v.Catalog.Column.{type_code}
use dip_v.Catalog.Column.RoundTrip.{type_of_code-type_code}
use dip_v.Catalog.Stats.{
  ColumnStats, PageStats, lookup, insert, column_to_bytes, read_value, column_from_bytes,
  entries_to_bytes, to_bytes, read_entries, from_bytes,
}
use mathlib.Core.List.{append_assoc, append-nil}

-- Both ends are values of one type.
pub record IsColumnStats (s : ColumnStats) : Type 0 where
  pub least : IsValue s.least
  pub greatest : IsValue s.greatest
  pub same_type : get_type_id s.greatest ≡ get_type_id s.least

length-integer : (a : ℤ) → length (Types.to_bytes (Value.integer a)) ≡ 4
unfolding Types.to_bytes
length-integer a = length-u32_to_le_bytes _

length-boolean : (b : Bool) → length (Types.to_bytes (Value.boolean b)) ≡ 1
unfolding Types.to_bytes
length-boolean b = refl

varchar_bytes :
    (bytes : List ℕ)
    → length bytes < 2 ^ 32
    → Types.to_bytes (Value.varchar bytes) ≡ u32_to_le_bytes (length bytes) ++ bytes
unfolding Types.to_bytes
varchar_bytes bytes h = let e : length bytes % 2 ^ 32 ≡ length bytes = omega arith in rw e

read_value-to_bytes :
    (v : Value) (rest : List ℕ)
    → IsValue v
    → read_value (Types.to_bytes v ++ rest) (get_type_id v) ≡ ok (v, length (Types.to_bytes v))
unfolding read_value get_type_id
read_value-to_bytes (Value.integer a) rest h =
    let v : Value = Value.integer a in
    let size : length (Types.to_bytes v) ≡ 4 = length-integer a in
    let long : leb 4 (length (Types.to_bytes v ++ rest)) ≡ true =
      ground (arith, length-append (Types.to_bytes v) rest, size) in
    let read : Types.from_bytes (Types.to_bytes v ++ rest) TypeId.integer ≡ ok v =
      RoundTrip.from_bytes-to_bytes v rest h in
    rw (long, read, size)
read_value-to_bytes (Value.boolean b) rest h =
    let v : Value = Value.boolean b in
    let size : length (Types.to_bytes v) ≡ 1 = length-boolean b in
    let long : leb 1 (length (Types.to_bytes v ++ rest)) ≡ true =
      ground (arith, length-append (Types.to_bytes v) rest, size) in
    let read : Types.from_bytes (Types.to_bytes v ++ rest) TypeId.boolean ≡ ok v =
      RoundTrip.from_bytes-to_bytes v rest h in
    rw (long, read, size)
read_value-to_bytes (Value.varchar bytes) rest h =
    let v : Value = Value.varchar bytes in
    let n : ℕ = length bytes in
    let split : Types.to_bytes v ≡ u32_to_le_bytes n ++ bytes = varchar_bytes bytes h.2 in
    let size : length (Types.to_bytes v) ≡ 4 + n =
      rw split (omega (arith, length-append (u32_to_le_bytes n) bytes, length-u32_to_le_bytes n)) in
    let long4 : leb 4 (length (Types.to_bytes v ++ rest)) ≡ true =
      ground (arith, length-append (Types.to_bytes v) rest, size) in
    let long : leb (4 + n) (length (Types.to_bytes v ++ rest)) ≡ true =
      ground (arith, length-append (Types.to_bytes v) rest, size) in
    let prefix : slice (Types.to_bytes v ++ rest) 0 4 ≡ ok (u32_to_le_bytes n) =
      rw (split, append_assoc) (slice-u32 n (bytes ++ rest)) in
    let read : Types.from_bytes (Types.to_bytes v ++ rest) TypeId.varchar ≡ ok v =
      RoundTrip.from_bytes-to_bytes v rest h in
    rw (long4, prefix, u32_round_trip, h.2, long, read, size)

column_round_trip :
    (s : ColumnStats) (rest : List ℕ)
    → IsColumnStats s
    → column_from_bytes (column_to_bytes s ++ rest) ≡ ok (s, length (column_to_bytes s))
unfolding column_from_bytes column_to_bytes
column_round_trip s rest h =
    let low = Types.to_bytes s.least in
    let high = Types.to_bytes s.greatest in
    let code : ℕ = type_code (get_type_id s.least) in
    let first : slice_from (code ∷ (low ++ (high ++ rest))) 1 ≡ ok (low ++ (high ++ rest)) =
      slice_from_append (code ∷ []) (low ++ (high ++ rest)) 1 refl in
    let second : slice_from (code ∷ (low ++ (high ++ rest))) (1 + length low) ≡ ok (high ++ rest) =
      slice_from_append (code ∷ low) (high ++ rest) (1 + length low) (omega arith) in
    let read : read_value (high ++ rest) (get_type_id s.least) ≡ ok (s.greatest, length high) =
      rw (← h.same_type) (read_value-to_bytes s.greatest rest h.greatest) in
    let tag : index (code ∷ (low ++ (high ++ rest))) 0 ≡ ok code = unfold index in refl in
    let nonempty : leb 1 (length (code ∷ (low ++ (high ++ rest)))) ≡ true = ground arith in
    let size : 1 + length low + length high ≡ length (code ∷ (low ++ high)) =
      omega (arith, length-append low high) in
    rw (
      append_assoc, nonempty, tag, type_of_code-type_code, first, read_value-to_bytes, h.least,
      second, read, size,
    )

insert_absent :
    (k : ℕ) (s : ColumnStats) (m : List (ℕ × ColumnStats))
    → lookup k m ≡ none
    → insert k s m ≡ m ++ ((k, s) ∷ [])
unfolding insert lookup
insert_absent k s [] h = refl
insert_absent k s ((j, t) ∷ m) h = ground (arith, insert_absent k s m)

-- The entries of a map: no key twice, nor in `seen`, and what is written fits its bytes.
abbrev pub Entries : List (ℕ × ColumnStats) → List (ℕ × ColumnStats) → Type 0
Entries seen [] = Unit
Entries seen ((k, s) ∷ m) =
    (lookup k seen ≡ none) × (k < 2 ^ 32) × IsColumnStats s × Entries (seen ++ ((k, s) ∷ [])) m

pub record IsPageStats (p : PageStats) : Type 0 where
  pub entries : Entries [] p.columns
  pub short : length p.columns < 2 ^ 32

read_entries_lem :
    (m : List (ℕ × ColumnStats)) (pre rest : List ℕ) (offset : ℕ) (seen : List (ℕ × ColumnStats))
    → Entries seen m
    → offset ≡ length pre
    → read_entries (length m) (pre ++ (entries_to_bytes m ++ rest)) offset seen
      ≡ ok (seen ++ m, offset + length (entries_to_bytes m))
unfolding read_entries entries_to_bytes
read_entries_lem [] pre rest offset seen h p =
    let e : offset + 0 ≡ offset = omega arith in rw (append-nil, e)
read_entries_lem ((k, s) ∷ m) pre rest offset seen h p =
    let head = u32_to_le_bytes k in
    let body = column_to_bytes s in
    let tail = entries_to_bytes m ++ rest in
    let all = pre ++ (head ++ (body ++ tail)) in
    let len : ℕ = length body in
    let four : ℕ = length head in
    let four_eq : length head ≡ 4 = length-u32_to_le_bytes k in
    let whole : k % 2 ^ 32 ≡ k = let b : k < 2 ^ 32 = h.1 in omega arith in
    let size : length all ≡ length pre + 4 + len + length tail = omega (
      arith,
      length-append pre (head ++ (body ++ tail)),
      length-append head (body ++ tail),
      length-append body tail,
      four_eq,
    ) in
    let inside : leb (offset + 4) (length all) ≡ true = ground (arith, size) in
    let key : slice all offset (offset + 4) ≡ ok head =
      slice_mid pre head (body ++ tail) offset (offset + 4) p (omega (arith, four_eq)) in
    let at_body : slice_from all (offset + 4) ≡ ok (body ++ tail) =
      rw (← append_assoc pre head (body ++ tail)) (
        slice_from_append (pre ++ head) (body ++ tail) (offset + 4)
          (omega (arith, length-append pre head, four_eq))) in
    let total : offset + 4 + len + length (entries_to_bytes m)
        ≡ offset + length (head ++ (body ++ entries_to_bytes m)) =
      omega (
        arith,
        length-append head (body ++ entries_to_bytes m),
        length-append body (entries_to_bytes m),
        four_eq,
      ) in
    let total2 : offset + 4 + len + length (entries_to_bytes m)
        ≡ offset + length ((head ++ body) ++ entries_to_bytes m) =
      rw append_assoc total in
    let next : read_entries (length m) all (offset + 4 + len) (insert k s seen)
        ≡ ok (seen ++ ((k, s) ∷ m), offset + length (head ++ (body ++ entries_to_bytes m))) =
      rw
        (
          insert_absent k s seen h.0,
          ← append_assoc head body (entries_to_bytes m),
          ← append_assoc head body tail,
          ← append_assoc pre (head ++ body) tail,
        )
        (rw
          (read_entries_lem m (pre ++ (head ++ body)) rest (offset + 4 + len)
            (seen ++ ((k, s) ∷ [])) h.3
            (omega (arith, length-append pre (head ++ body), length-append head body, four_eq)))
          (rw (append_assoc) (rw total2))) in
    rw (
      whole, append_assoc, append_assoc, inside, key, u32_round_trip, h.1, at_body,
      column_round_trip, h.2, next,
    )

-- For a zone map of fewer than 2^32 columns with distinct numbers below 2^32, each with a least
-- and a greatest value of one type, whatever bytes follow, `from_bytes` reads the zone map that
-- `to_bytes` wrote, and the number of its bytes.
pub stats_bytes_round_trip :
    (p : PageStats) (rest : List ℕ)
    → IsPageStats p
    → from_bytes (to_bytes p ++ rest) ≡ ok (p, length (to_bytes p))
unfolding from_bytes to_bytes
stats_bytes_round_trip p rest h =
    let n : ℕ = length p.columns in
    let short : length p.columns < 2 ^ 32 = h.short in
    let whole : n % 2 ^ 32 ≡ n = omega arith in
    let body = entries_to_bytes p.columns in
    let long : leb 4 (length (u32_to_le_bytes n ++ (body ++ rest))) ≡ true =
      ground (arith, length-append (u32_to_le_bytes n) (body ++ rest), length-u32_to_le_bytes n) in
    let size : 4 + length body ≡ length (u32_to_le_bytes n ++ body) =
      omega (arith, length-append (u32_to_le_bytes n) body, length-u32_to_le_bytes n) in
    rw (
      whole,
      append_assoc,
      long,
      slice-u32,
      u32_round_trip,
      short,
      read_entries_lem p.columns (u32_to_le_bytes n) rest 4 [] h.entries
          (rw length-u32_to_le_bytes),
      size,
    )
