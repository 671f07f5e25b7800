-- ===== src/Storage/Index/Leaf.antt =====
-- Leaf pages: sorted keys with their record ids (src/storage/index/b_plus_tree_leaf_page.rs).
use dip_v.Base.{ℕ, zero, suc, ◌+◌, ◌-◌, ◌*◌, ◌/◌, ◌%◌, ◌^◌, true, false, List, Result, ok, ◌>>=◌}
use dip_v.Base.Int.{ℤ, to_bits, of_bits, ltb_ℤ}
use dip_v.Storage.Rid
use dip_v.Storage.Rid.{Rid}
use dip_v.Storage.Index.Header.{
  IndexPageType, index_page_header_size, word_at, set_word_at, set_page_type, get_size, set_size,
  set_max_size, set_parent_page_id, set_page_id,
}

abbrev entry_size : ℕ
entry_size = 12

unfoldable pub get_next_page_id : List ℕ → Result ℕ
get_next_page_id page = word_at page 20

unfoldable pub set_next_page_id : List ℕ → ℕ → Result (List ℕ)
set_next_page_id page next_page_id = set_word_at page 20 next_page_id

-- `BPlusTreeLeafPage::init`
unfoldable pub init : List ℕ → ℕ → ℕ → ℕ → Result (List ℕ)
unfolding set_next_page_id
init page page_id parent_id max_size = do
  d1 ← set_page_type page IndexPageType.leaf_page
  d2 ← set_size d1 0
  d3 ← set_max_size d2 max_size
  d4 ← set_parent_page_id d3 parent_id
  d5 ← set_page_id d4 page_id
  set_next_page_id d5 0

unfoldable pub key_at : List ℕ → ℕ → Result ℤ
key_at page index = do
  bits ← word_at page (index_page_header_size + index * entry_size)
  ok (of_bits bits)

unfoldable pub set_key_at : List ℕ → ℕ → ℤ → Result (List ℕ)
set_key_at page index key =
    set_word_at page (index_page_header_size + index * entry_size) (to_bits key)

unfoldable pub value_at : List ℕ → ℕ → Result Rid
value_at page index = do
  let offset = index_page_header_size + index * entry_size + 4
  page_id ← word_at page offset
  slot_num ← word_at page (offset + 4)
  ok (Rid.new page_id slot_num)

unfoldable pub set_value_at : List ℕ → ℕ → Rid → Result (List ℕ)
set_value_at page index rid = do
  let offset = index_page_header_size + index * entry_size + 4
  d1 ← set_word_at page offset rid.page_id
  set_word_at d1 (offset + 4) rid.slot_num

-- The linear search of `insert`, with the rounds that are left before `index` reaches `size`.
unfoldable pub insert_position : List ℕ → ℤ → ℕ → ℕ → Result ℕ
unfolding key_at
insert_position page key zero index = ok index
insert_position page key (suc rounds) index = do
  k ← key_at page index
  elim (ltb_ℤ k key) [ true ↦ insert_position page key rounds (index + 1) | false ↦ ok index ]

-- `(index..size).rev()`: `count` entries from `index` on move up by one, the last first.
unfoldable pub shift : List ℕ → ℕ → ℕ → Result (List ℕ)
unfolding key_at value_at set_key_at set_value_at
shift page index zero = ok page
shift page index (suc count) = do
  let i = index + count
  k ← key_at page i
  v ← value_at page i
  d1 ← set_key_at page (i + 1) k
  d2 ← set_value_at d1 (i + 1) v
  shift d2 index count

-- `BPlusTreeLeafPage::insert`
unfoldable pub insert : List ℕ → ℤ → Rid → Result (ℕ × List ℕ)
unfolding insert_position shift
insert page key value = do
  size ← get_size page
  index ← insert_position page key size 0
  d1 ← shift page index (size - index)
  d2 ← set_key_at d1 index key
  d3 ← set_value_at d2 index value
  d4 ← set_size d3 ((size + 1) % 2 ^ 32)
  ok (index, d4)

-- The loop of `move_half_to`, from entry `i` on.
unfoldable pub copy_entries : List ℕ → List ℕ → ℕ → ℕ → ℕ → Result (List ℕ)
unfolding key_at value_at set_key_at set_value_at
copy_entries page recipient split_idx i zero = ok recipient
copy_entries page recipient split_idx i (suc rounds) = do
  key ← key_at page (split_idx + i)
  val ← value_at page (split_idx + i)
  d1 ← set_key_at recipient i key
  d2 ← set_value_at d1 i val
  copy_entries page d2 split_idx (i + 1) rounds

-- `BPlusTreeLeafPage::move_half_to`: both pages
unfoldable pub move_half_to : List ℕ → List ℕ → Result (List ℕ × List ℕ)
unfolding copy_entries
move_half_to page recipient = do
  size ← get_size page
  let split_idx = size / 2
  let num_to_move = size - split_idx
  d1 ← copy_entries page recipient split_idx 0 num_to_move
  d2 ← set_size d1 num_to_move
  p1 ← set_size page split_idx
  ok (p1, d2)
