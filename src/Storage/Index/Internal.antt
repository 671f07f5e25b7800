-- ===== src/Storage/Index/Internal.antt =====
-- Internal pages: keys that part the children (src/storage/index/b_plus_tree_internal_page.rs).
-- The key at index 0 is not used.
use dip_v.Base.{
  ℕ, zero, suc, ◌+◌, ◌-◌, ◌*◌, ◌/◌, ◌%◌, ◌^◌, true, false, List, leb, ◌==◌, Result, ok, fail, ◌>>=◌,
}
use dip_v.Base.Int.{ℤ, to_bits, of_bits, leb_ℤ}
use dip_v.Storage.Index.Header.{
  IndexPageType, index_page_header_size, word_at, set_word_at, set_page_type, get_size, set_size,
  set_max_size, set_parent_page_id, set_page_id,
}

abbrev entry_size : ℕ
entry_size = 8

-- `BPlusTreeInternalPage::init`
unfoldable pub init : List ℕ → ℕ → ℕ → ℕ → Result (List ℕ)
init page page_id parent_id max_size = do
  d1 ← set_page_type page IndexPageType.internal_page
  d2 ← set_size d1 0
  d3 ← set_max_size d2 max_size
  d4 ← set_parent_page_id d3 parent_id
  set_page_id d4 page_id

unfoldable pub key_at : List ℕ → ℕ → Result ℤ
key_at page index = do
  bits ← word_at page (index_page_header_size + index * entry_size)
  ok (of_bits bits)

unfoldable pub set_key_at : List ℕ → ℕ → ℤ → Result (List ℕ)
set_key_at page index key =
    set_word_at page (index_page_header_size + index * entry_size) (to_bits key)

unfoldable pub value_at : List ℕ → ℕ → Result ℕ
value_at page index = word_at page (index_page_header_size + index * entry_size + 4)

unfoldable pub set_value_at : List ℕ → ℕ → ℕ → Result (List ℕ)
set_value_at page index page_id =
    set_word_at page (index_page_header_size + index * entry_size + 4) page_id

-- The binary search of `lookup`, on fuel.
unfoldable pub search : List ℕ → ℤ → ℕ → ℕ → ℕ → ℕ → Result ℕ
search page key zero left right result_idx = fail
search page key (suc fuel) left right result_idx = elim (leb left right) [
  | false ↦ ok result_idx
  | true ↦ do
    let mid = (left + right) % 2 ^ 32 / 2
    k ← key_at page mid
    elim (leb_ℤ k key) [
      | true ↦ search page key fuel ((mid + 1) % 2 ^ 32) right mid
      | false ↦ search page key fuel left ((mid + 2 ^ 32 - 1) % 2 ^ 32) result_idx
    ]
]

-- `BPlusTreeInternalPage::lookup`: the search range shrinks in each round, so `size` rounds and
-- the last test are enough.
unfoldable pub lookup : List ℕ → ℤ → Result ℕ
unfolding search
lookup page key = do
  size ← get_size page
  result_idx ← search page key (size + 1) 1 ((size + 2 ^ 32 - 1) % 2 ^ 32) 0
  value_at page result_idx

-- The search for `old_value`: the index after it, or `size`.
unfoldable pub index_after : List ℕ → ℕ → ℕ → ℕ → Result ℕ
index_after page old_value i zero = ok i
index_after page old_value i (suc rounds) = do
  v ← value_at page i
  elim (v == old_value) [ true ↦ ok (i + 1) | false ↦ index_after page old_value (i + 1) rounds ]

-- `(index..size).rev()`: `count` entries from `index` on move up by one, the last first.
unfoldable pub shift : List ℕ → ℕ → ℕ → Result (List ℕ)
unfolding key_at value_at set_key_at set_value_at
shift page index zero = ok page
shift page index (suc count) = do
  let i = index + count
  k ← key_at page i
  d1 ← set_key_at page (i + 1) k
  v ← value_at d1 i
  d2 ← set_value_at d1 (i + 1) v
  shift d2 index count

-- `BPlusTreeInternalPage::insert_node_after`
unfoldable pub insert_node_after : List ℕ → ℕ → ℤ → ℕ → Result (List ℕ)
unfolding index_after shift
insert_node_after page old_value new_key new_value = do
  size ← get_size page
  index ← index_after page old_value 0 size
  d1 ← shift page index (size - index)
  d2 ← set_key_at d1 index new_key
  d3 ← set_value_at d2 index new_value
  set_size d3 ((size + 1) % 2 ^ 32)

-- The loop of `move_half_to`, from entry `i` on.
unfoldable pub copy_entries : List ℕ → List ℕ → ℕ → ℕ → ℕ → Result (List ℕ)
copy_entries page recipient split_idx i zero = ok recipient
copy_entries page recipient split_idx i (suc rounds) = do
  key ← key_at page (split_idx + i)
  val ← value_at page (split_idx + i)
  d1 ← set_key_at recipient i key
  d2 ← set_value_at d1 i val
  copy_entries page d2 split_idx (i + 1) rounds

-- `BPlusTreeInternalPage::move_half_to`: both pages
unfoldable pub move_half_to : List ℕ → List ℕ → Result (List ℕ × List ℕ)
unfolding copy_entries
move_half_to page recipient = do
  size ← get_size page
  let split_idx = size / 2
  let num_to_move = size - split_idx
  d1 ← copy_entries page recipient split_idx 0 num_to_move
  d2 ← set_size d1 num_to_move
  p1 ← set_size page split_idx
  ok (p1, d2)
