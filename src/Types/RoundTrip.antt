-- ===== src/Types/RoundTrip.antt =====
-- The bytes of a value read back as the value (src/types/mod.rs).
use dip_v.Base.{ℕ, ◌+◌, ◌%◌, ◌^◌, ◌≡◌, refl, true, false, List, [], ◌++◌, length, arith, ok}
use dip_v.Base.Int.{of_bits-to_bits, to_bits-lt}
use dip_v.Base.Bytes.{
  index, slice, slice_mid, u32_to_le_bytes, u32_round_trip, length-u32_to_le_bytes,
}
use dip_v.Types.{Value, IsValue, get_type_id, to_bytes, from_bytes}
use mathlib.Core.List.{append_assoc}

-- A word at the head of a slice.
pub slice-u32 :
    (n : ℕ) (rest : List ℕ) → slice (u32_to_le_bytes n ++ rest) 0 4 ≡ ok (u32_to_le_bytes n)
slice-u32 n rest = slice_mid [] (u32_to_le_bytes n) rest 0 4 refl (rw length-u32_to_le_bytes)

-- Whatever bytes follow, the bytes of a value (an i32, a Boolean, or UTF-8 text of fewer than 2^32
-- bytes) decode to that value at its type.
pub from_bytes-to_bytes :
    (v : Value) (rest : List ℕ) → IsValue v → from_bytes (to_bytes v ++ rest) (get_type_id v) ≡ ok v
unfolding to_bytes from_bytes get_type_id index
from_bytes-to_bytes (Value.integer a) rest h =
    rw (slice-u32, u32_round_trip, to_bits-lt, of_bits-to_bits, h)
from_bytes-to_bytes (Value.boolean true) rest h = refl
from_bytes-to_bytes (Value.boolean false) rest h = refl
from_bytes-to_bytes (Value.varchar bytes) rest h =
    let n = length bytes in
    let whole : n % 2 ^ 32 ≡ n = omega arith in
    let text : slice (u32_to_le_bytes n ++ (bytes ++ rest)) 4 (4 + n) ≡ ok bytes =
      slice_mid (u32_to_le_bytes n) bytes rest 4 (4 + n) (rw length-u32_to_le_bytes)
        (rw length-u32_to_le_bytes) in
    rw (whole, append_assoc, slice-u32, u32_round_trip, h.2, text, h.1)
