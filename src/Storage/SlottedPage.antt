-- ===== src/Storage/SlottedPage.antt =====
-- Tuples in a page behind an array of slots (src/storage/table/slotted_page.rs).
-- The page is its bytes. `u16` arithmetic wraps around, as in a release build.
pub mod Words
pub mod Layout
pub mod Insert
pub mod Reslot
pub mod Delete
pub mod Init
use dip_v.Base.{
  ℕ, ◌+◌, ◌-◌, ◌*◌, ◌%◌, ◌^◌, List, length, Bool, true, false, ltb, leb, ◌==◌, if◌then◌else◌,
  Option, none, some, Result, ok, panic, ◌>>=◌,
}
use dip_v.Base.Bytes.{slice, u16_to_le_bytes, u16_from_le_bytes, u32_to_le_bytes, u32_from_le_bytes}
use dip_v.Base.Splice.{write}
use dip_v.Storage.Tuple
use dip_v.Storage.Tuple.{Tuple}

-- `HEADER_SIZE`
abbrev pub header_size : ℕ
header_size = 12

unfoldable pub get_u16 : List ℕ → ℕ → Result ℕ
get_u16 page offset = slice page offset (offset + 2) >>= u16_from_le_bytes

unfoldable pub set_u16 : List ℕ → ℕ → ℕ → Result (List ℕ)
set_u16 page offset value = write page offset (offset + 2) (u16_to_le_bytes value)

unfoldable pub get_u32 : List ℕ → ℕ → Result ℕ
get_u32 page offset = slice page offset (offset + 4) >>= u32_from_le_bytes

unfoldable pub set_u32 : List ℕ → ℕ → ℕ → Result (List ℕ)
set_u32 page offset value = write page offset (offset + 4) (u32_to_le_bytes value)

abbrev pub get_free_space_pointer : List ℕ → Result ℕ
get_free_space_pointer page = get_u16 page 4

abbrev pub set_free_space_pointer : List ℕ → ℕ → Result (List ℕ)
set_free_space_pointer page ptr = set_u16 page 4 ptr

abbrev pub get_slot_count : List ℕ → Result ℕ
get_slot_count page = get_u16 page 6

abbrev pub set_slot_count : List ℕ → ℕ → Result (List ℕ)
set_slot_count page count = set_u16 page 6 count

abbrev pub set_lsn : List ℕ → ℕ → Result (List ℕ)
set_lsn page lsn = set_u32 page 0 lsn

abbrev pub set_next_page_id : List ℕ → ℕ → Result (List ℕ)
set_next_page_id page pid = set_u32 page 8 pid

abbrev pub get_next_page_id : List ℕ → Result ℕ
get_next_page_id page = get_u32 page 8

-- `init`
unfoldable pub init : List ℕ → ℕ → Result (List ℕ)
init page next_page_id = do
  d1 ← set_lsn page 0
  d2 ← set_free_space_pointer d1 4096
  d3 ← set_slot_count d2 0
  set_next_page_id d3 next_page_id

unfoldable pub get_free_space_remaining : List ℕ → Result ℕ
get_free_space_remaining page = do
  free_ptr ← get_free_space_pointer page
  count ← get_slot_count page
  let header_end = (header_size + count * 4 % 2 ^ 16) % 2 ^ 16
  ok (if ltb free_ptr header_end then 0 else free_ptr - header_end)

unfoldable pub set_slot : List ℕ → ℕ → ℕ → ℕ → Result (List ℕ)
set_slot page slot_id offset len = do
  let slot_offset = header_size + slot_id * 4
  d1 ← set_u16 page slot_offset offset
  set_u16 d1 (slot_offset + 2) len

unfoldable pub get_slot : List ℕ → ℕ → Result (ℕ × ℕ)
get_slot page slot_id = do
  let slot_offset = header_size + slot_id * 4
  offset ← get_u16 page slot_offset
  len ← get_u16 page (slot_offset + 2)
  ok (offset, len)

-- `insert_tuple` after the check that there is room
unfoldable pub place : List ℕ → List ℕ → ℕ → Result (Option ℕ × List ℕ)
unfolding set_slot set_u16 get_u16
place page bytes size = do
  slot_id ← get_slot_count page
  free_ptr ← get_free_space_pointer page
  let new_offset = (free_ptr + 2 ^ 16 - size) % 2 ^ 16
  d1 ← write page new_offset ((new_offset + size) % 2 ^ 16) bytes
  d2 ← set_free_space_pointer d1 new_offset
  d3 ← set_slot_count d2 ((slot_id + 1) % 2 ^ 16)
  d4 ← set_slot d3 slot_id new_offset size
  ok (some slot_id, d4)

-- `insert_tuple`: the slot id, or `none` if there is no room
unfoldable pub insert_tuple : List ℕ → Tuple → Result (Option ℕ × List ℕ)
unfolding place get_free_space_remaining Tuple.size
insert_tuple page tuple = do
  let size = Tuple.size tuple % 2 ^ 16
  free_space ← get_free_space_remaining page
  if ltb free_space ((size + 4) % 2 ^ 16) then ok (none, page) else place page tuple.bytes size

-- `raw & 0x8000 != 0`
abbrev pub deleted_bit : ℕ → Bool
deleted_bit raw = leb 32768 (raw % 65536)

-- `get_tuple`
unfoldable pub get_tuple : List ℕ → ℕ → Result (Option Tuple)
unfolding get_slot get_u16 Tuple.new
get_tuple page slot_id = do
  count ← get_slot_count page
  if leb count slot_id then ok none else (do
    (offset, raw_size) ← get_slot page slot_id
    let size = raw_size % 32768
    if deleted_bit raw_size
        then ok none
        else (if size == 0 then ok none else (do
          bytes ← slice page offset ((offset + size) % 2 ^ 16)
          ok (some (Tuple.new bytes)))))

-- `mark_delete`: the highest bit of the length is set.
unfoldable pub mark_delete : List ℕ → ℕ → Result (Bool × List ℕ)
unfolding get_slot set_slot get_u16
mark_delete page slot_id = do
  count ← get_slot_count page
  if leb count slot_id then ok (false, page) else (do
    (offset, len) ← get_slot page slot_id
    d1 ← set_slot page slot_id offset (len % 32768 + 32768)
    ok (true, d1))

-- `rollback_delete`
unfoldable pub rollback_delete : List ℕ → ℕ → ℕ → Result (Bool × List ℕ)
unfolding get_slot set_slot get_u16
rollback_delete page slot_id original_len = do
  count ← get_slot_count page
  if leb count slot_id then ok (false, page) else (do
    (offset, _) ← get_slot page slot_id
    d1 ← set_slot page slot_id offset (original_len % 32768)
    ok (true, d1))

-- `is_tuple_marked_for_delete`
unfoldable pub is_tuple_marked_for_delete : List ℕ → ℕ → Result Bool
unfolding get_slot get_u16
is_tuple_marked_for_delete page slot_id = do
  count ← get_slot_count page
  if leb count slot_id
      then ok false
      else (do (_, len) ← get_slot page slot_id; ok (deleted_bit len))
