-- ===== src/Storage/SlottedPage/Words.antt =====
-- The words of a page after a write (src/storage/table/slotted_page.rs).
use dip_v.Base.{ℕ, ◌+◌, ◌-◌, ◌≤◌, ◌<◌, ◌≡◌, ◌^◌, ◌⊎◌, List, length, leb, ◌==◌, true, arith, ok}
use dip_v.Base.Bytes.{slice, u16_to_le_bytes, u16_round_trip, length-u16_to_le_bytes}
use dip_v.Base.Splice.{splice, write, length-splice, slice-splice_self, slice-splice_other}
use dip_v.Storage.SlottedPage.{get_u16, set_u16}

-- The page after a word is set.
unfoldable pub with_u16 : List ℕ → ℕ → ℕ → List ℕ
with_u16 bytes offset value = splice bytes offset (u16_to_le_bytes value)

pub set_u16_lem :
    (bytes : List ℕ) (offset value : ℕ)
    → offset + 2 ≤ length bytes
    → (set_u16 bytes offset value ≡ ok (with_u16 bytes offset value))
      × (length (with_u16 bytes offset value) ≡ length bytes)
unfolding set_u16 write with_u16
set_u16_lem bytes offset value h =
    let ordered : leb offset (offset + 2) ≡ true = ground arith in
    let inside : leb (offset + 2) (length bytes) ≡ true = ground arith in
    let size : (length (u16_to_le_bytes value) == offset + 2 - offset) ≡ true =
      ground (arith, length-u16_to_le_bytes value) in
    (
      rw (ordered, inside, size),
      length-splice bytes offset (u16_to_le_bytes value)
          (omega (arith, h, length-u16_to_le_bytes value)),
    )

pub get_u16-with_u16 :
    (bytes : List ℕ) (offset value : ℕ)
    → offset + 2 ≤ length bytes
    → value < 2 ^ 16
    → get_u16 (with_u16 bytes offset value) offset ≡ ok value
unfolding get_u16 with_u16
get_u16-with_u16 bytes offset value h small =
    let two = length-u16_to_le_bytes value in
    rw
      (slice-splice_self bytes offset (u16_to_le_bytes value) (omega (arith, h, two)) (offset + 2)
        (omega (arith, two)))
      (u16_round_trip value small)

pub get_u16-splice_other :
    (bytes : List ℕ) (offset : ℕ) (ys : List ℕ) (at : ℕ)
    → offset + length ys ≤ length bytes
    → ((at + 2 ≤ offset) ⊎ (offset + length ys ≤ at))
    → get_u16 (splice bytes offset ys) at ≡ get_u16 bytes at
unfolding get_u16
get_u16-splice_other bytes offset ys at h apart =
    rw (slice-splice_other bytes offset ys h at (at + 2) apart)

pub get_u16-with_u16_other :
    (bytes : List ℕ) (offset value at : ℕ)
    → offset + 2 ≤ length bytes
    → ((at + 2 ≤ offset) ⊎ (offset + 2 ≤ at))
    → get_u16 (with_u16 bytes offset value) at ≡ get_u16 bytes at
unfolding with_u16 u16_to_le_bytes
get_u16-with_u16_other bytes offset value at h apart =
    get_u16-splice_other bytes offset (u16_to_le_bytes value) at h apart

pub slice-with_u16_other :
    (bytes : List ℕ) (offset value a b : ℕ)
    → offset + 2 ≤ length bytes
    → ((b ≤ offset) ⊎ (offset + 2 ≤ a))
    → slice (with_u16 bytes offset value) a b ≡ slice bytes a b
unfolding with_u16 u16_to_le_bytes
slice-with_u16_other bytes offset value a b h apart =
    slice-splice_other bytes offset (u16_to_le_bytes value) h a b apart
