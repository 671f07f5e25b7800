-- ===== src/Types.antt =====
-- The values of the database and their bytes (src/types/mod.rs).
-- A Rust `String` is the list of its UTF-8 bytes; an `i32` is an integer with `IsI32`.
pub mod Order
pub mod RoundTrip
pub mod Tests
use Prim.Native.Nat.{compare, Ordering}
use dip_v.Base.{
  ℕ, ◌+◌, ◌%◌, ◌^◌, ◌<◌, ◌≡◌, Bool, true, false, not, ◌&&◌, List, [], ◌∷◌, ◌++◌, length, leb, ◌==◌,
  if◌then◌else◌, All, Result, ok, ◌>>=◌, ◌>>◌, assert,
}
use dip_v.Base.Int.{ℤ, IsI32, compare_ℤ, to_bits, of_bits}
use dip_v.Base.Bytes.{IsByte, index, slice, u32_to_le_bytes, u32_from_le_bytes}

pub data TypeId : Type 0 where
  integer boolean varchar : TypeId

pub data Value : Type 0 where
  integer : ℤ → Value
  boolean : Bool → Value
  varchar : List ℕ → Value

-- `Value::get_type_id`
unfoldable pub get_type_id : Value → TypeId
get_type_id (Value.integer _) = TypeId.integer
get_type_id (Value.boolean _) = TypeId.boolean
get_type_id (Value.varchar _) = TypeId.varchar

abbrev in_range : ℕ → ℕ → ℕ → Bool
in_range lo hi b = leb lo b && leb b hi

-- The ranges of the bytes that must follow a first byte, or `none` if it starts no character.
abbrev pub Pending : Type 0
Pending = List (ℕ × ℕ)

abbrev tail_byte : ℕ × ℕ
tail_byte = (0x80, 0xBF)

first_byte : ℕ → Bool × Pending
first_byte b =
    if leb b 0x7F
    then (true, [])
    else if in_range 0xC2 0xDF b
    then (true, tail_byte ∷ [])
    else if b == 0xE0
    then (true, (0xA0, 0xBF) ∷ tail_byte ∷ [])
    else if b == 0xED
    then (true, (0x80, 0x9F) ∷ tail_byte ∷ [])
    else if in_range 0xE1 0xEF b
    then (true, tail_byte ∷ tail_byte ∷ [])
    else if b == 0xF0
    then (true, (0x90, 0xBF) ∷ tail_byte ∷ tail_byte ∷ [])
    else if in_range 0xF1 0xF3 b
    then (true, tail_byte ∷ tail_byte ∷ tail_byte ∷ [])
    else if b == 0xF4
    then (true, (0x80, 0x8F) ∷ tail_byte ∷ tail_byte ∷ [])
    else (false, [])

utf8_from : Pending → List ℕ → Bool
unfolding first_byte
utf8_from [] [] = true
utf8_from (_ ∷ _) [] = false
utf8_from [] (b ∷ bs) = let (good, next) = first_byte b in good && utf8_from next bs
utf8_from ((lo, hi) ∷ next) (b ∷ bs) = in_range lo hi b && utf8_from next bs

-- The test of `String::from_utf8`.
unfoldable pub is_utf8 : List ℕ → Bool
unfolding utf8_from
is_utf8 bs = utf8_from [] bs

-- `Value::to_bytes`
unfoldable pub to_bytes : Value → List ℕ
to_bytes (Value.integer v) = u32_to_le_bytes (to_bits v)
to_bytes (Value.boolean b) = (if b then 1 else 0) ∷ []
to_bytes (Value.varchar bytes) = u32_to_le_bytes (length bytes % 2 ^ 32) ++ bytes

-- `Value::from_bytes`: a short slice and invalid UTF-8 panic.
unfoldable pub from_bytes : List ℕ → TypeId → Result Value
from_bytes bytes TypeId.integer = do
  four ← slice bytes 0 4
  word ← u32_from_le_bytes four
  ok (Value.integer (of_bits word))
from_bytes bytes TypeId.boolean = do val ← index bytes 0; ok (Value.boolean (not (val == 0)))
from_bytes bytes TypeId.varchar = do
  len_bytes ← slice bytes 0 4
  len ← u32_from_le_bytes len_bytes
  str_bytes ← slice bytes 4 (4 + len)
  assert (is_utf8 str_bytes)
  ok (Value.varchar str_bytes)

-- What the Rust types guarantee of a value, and a length that fits its prefix.
abbrev pub IsValue : Value → Type 0
IsValue (Value.integer v) = IsI32 v
IsValue (Value.boolean b) = Unit {0}
IsValue (Value.varchar bytes) = All IsByte bytes × (is_utf8 bytes ≡ true) × (length bytes < 2 ^ 32)

-- The derived order: first the constructors in their order, then the fields.
unfoldable pub compare_bool : Bool → Bool → Ordering
compare_bool false true = Ordering.lt
compare_bool true false = Ordering.gt
compare_bool _ _ = Ordering.eq

unfoldable pub compare_bytes : List ℕ → List ℕ → Ordering
compare_bytes [] [] = Ordering.eq
compare_bytes [] (_ ∷ _) = Ordering.lt
compare_bytes (_ ∷ _) [] = Ordering.gt
compare_bytes (a ∷ as') (b ∷ bs) = elim (compare a b) [
  | Ordering.lt ↦ Ordering.lt
  | Ordering.gt ↦ Ordering.gt
  | Ordering.eq ↦ compare_bytes as' bs
]

abbrev tag : Value → ℕ
tag (Value.integer _) = 0
tag (Value.boolean _) = 1
tag (Value.varchar _) = 2

-- `partial_cmp` of `Value`
unfoldable pub compare_value : Value → Value → Ordering
unfolding compare_bool compare_bytes
compare_value (Value.integer a) (Value.integer b) = compare_ℤ a b
compare_value (Value.boolean a) (Value.boolean b) = compare_bool a b
compare_value (Value.varchar a) (Value.varchar b) = compare_bytes a b
compare_value a b = compare (tag a) (tag b)

abbrev is_lt : Ordering → Bool
is_lt o = elim o [ Ordering.lt ↦ true | _ ↦ false ]

abbrev is_eq : Ordering → Bool
is_eq o = elim o [ Ordering.eq ↦ true | _ ↦ false ]

-- `a < b`, `a == b` and `a <= b`; `a > b` is `lt b a`.
unfoldable pub lt : Value → Value → Bool
lt a b = is_lt (compare_value a b)

unfoldable pub eq : Value → Value → Bool
eq a b = is_eq (compare_value a b)

unfoldable pub le : Value → Value → Bool
le a b = not (is_lt (compare_value b a))
