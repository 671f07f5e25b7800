-- ===== src/Storage/Index/Header.antt =====
-- The header that both kinds of index page share (src/storage/index/b_plus_tree_page.rs).
-- A page is its bytes; a range out of bounds panics.
use dip_v.Base.{ℕ, ◌+◌, Bool, true, false, List, ◌==◌, if◌then◌else◌, Result, ok, ◌>>=◌}
use dip_v.Base.Bytes.{slice, u32_to_le_bytes, u32_from_le_bytes}
use dip_v.Base.Splice.{write}

pub data IndexPageType : Type 0 where
  leaf_page internal_page : IndexPageType

-- `INDEX_PAGE_HEADER_SIZE`
abbrev pub index_page_header_size : ℕ
index_page_header_size = 24

-- `u32::from_le_bytes(data[offset..offset+4])`
unfoldable pub word_at : List ℕ → ℕ → Result ℕ
word_at page offset = slice page offset (offset + 4) >>= u32_from_le_bytes

-- `data[offset..offset+4].copy_from_slice(..)`
unfoldable pub set_word_at : List ℕ → ℕ → ℕ → Result (List ℕ)
set_word_at page offset value = write page offset (offset + 4) (u32_to_le_bytes value)

unfoldable pub get_page_type : List ℕ → Result IndexPageType
unfolding word_at
get_page_type page = do
  val ← word_at page 0
  ok (if val == 0 then IndexPageType.leaf_page else IndexPageType.internal_page)

unfoldable pub set_page_type : List ℕ → IndexPageType → Result (List ℕ)
unfolding set_word_at
set_page_type page IndexPageType.leaf_page = set_word_at page 0 0
set_page_type page IndexPageType.internal_page = set_word_at page 0 1

unfoldable pub get_size : List ℕ → Result ℕ
unfolding word_at
get_size page = word_at page 4

unfoldable pub set_size : List ℕ → ℕ → Result (List ℕ)
unfolding set_word_at
set_size page size = set_word_at page 4 size

unfoldable pub get_max_size : List ℕ → Result ℕ
unfolding word_at
get_max_size page = word_at page 8

unfoldable pub set_max_size : List ℕ → ℕ → Result (List ℕ)
unfolding set_word_at
set_max_size page max_size = set_word_at page 8 max_size

unfoldable pub get_parent_page_id : List ℕ → Result ℕ
unfolding word_at
get_parent_page_id page = word_at page 12

unfoldable pub set_parent_page_id : List ℕ → ℕ → Result (List ℕ)
unfolding set_word_at
set_parent_page_id page parent_id = set_word_at page 12 parent_id

unfoldable pub get_page_id : List ℕ → Result ℕ
unfolding word_at
get_page_id page = word_at page 16

unfoldable pub set_page_id : List ℕ → ℕ → Result (List ℕ)
unfolding set_word_at
set_page_id page page_id = set_word_at page 16 page_id

unfoldable pub is_leaf_page : List ℕ → Result Bool
unfolding get_page_type
is_leaf_page page = do
  page_type ← get_page_type page
  ok (elim page_type [ IndexPageType.leaf_page ↦ true | IndexPageType.internal_page ↦ false ])

unfoldable pub is_root_page : List ℕ → Result Bool
unfolding get_parent_page_id
is_root_page page = do parent ← get_parent_page_id page; ok (parent == 0)
