-- ===== src/Storage/BPlusTree.antt =====
-- The B+ tree: search, update and deletion (src/storage/index/b_plus_tree.rs).
-- `bpm` is the manager that each operation takes and gives back; the loops from page to page run on
-- rounds, and `fail` says that these are used up. `insert` is in the module below.
pub mod Insert
pub mod Descent
pub mod Update
pub mod Replace
pub mod Grow
pub mod Find
mod Tests
use dip_v.Base.{
  ℕ, zero, suc, ◌+◌, ◌-◌, ◌/◌, Bool, true, false, List, ◌==◌, Option, none, some, Result, ok, fail,
  panic, ◌>>=◌, ◌&&◌,
}
use dip_v.Base.Int.{ℤ, leb_ℤ}
use dip_v.Storage.Disk.{page_size}
use dip_v.Storage.Rid.{Rid}
use dip_v.Storage.Index.Header.{index_page_header_size, get_size, set_size, is_leaf_page}
use dip_v.Storage.Index.Leaf
use dip_v.Storage.Index.Internal
use dip_v.Storage.PoolManager.{BufferPoolManager, fetch_page, new_page, write_to_page, unpin_page}
use dip_v.Storage.PageAccess.{copy_page, open_page, must_open, save_page, close_page}

-- `LEAF_ENTRY_SIZE`, `INTERNAL_ENTRY_SIZE`, `LEAF_MAX_SIZE` and `INTERNAL_MAX_SIZE`
abbrev pub leaf_entry_size : ℕ
leaf_entry_size = 12

abbrev pub internal_entry_size : ℕ
internal_entry_size = 8

abbrev pub leaf_max_size : ℕ
leaf_max_size = (page_size - index_page_header_size) / leaf_entry_size - 1

abbrev pub internal_max_size : ℕ
internal_max_size = (page_size - index_page_header_size) / internal_entry_size - 1

pub record BPlusTree : Type 0 where
  pub root_page_id : ℕ

-- `BPlusTree::from_root_page_id`
abbrev pub from_root_page_id : ℕ → BPlusTree
from_root_page_id page_id = record { root_page_id = page_id }

-- `BPlusTree::get_root_page_id`
abbrev pub get_root_page_id : BPlusTree → ℕ
get_root_page_id tree = tree.root_page_id

-- `==` on i32
unfoldable pub key_eq : ℤ → ℤ → Bool
key_eq a b = leb_ℤ a b && leb_ℤ b a

-- The loop `for i in 0..size` that looks for a key in a leaf, with the rounds left: the index.
unfoldable pub find_key : List ℕ → ℤ → ℕ → ℕ → Result (Option ℕ)
unfolding Leaf.key_at key_eq
find_key page key zero i = ok none
find_key page key (suc rounds) i = do
  k ← Leaf.key_at page i
  elim (key_eq k key) [ true ↦ ok (some i) | false ↦ find_key page key rounds (i + 1) ]

-- The search of a leaf in `get_value`.
unfoldable pub leaf_value : List ℕ → ℤ → Result (Option Rid)
unfolding get_size find_key Leaf.value_at
leaf_value page key = do
  size ← get_size page
  found ← find_key page key size 0
  elim found [ none ↦ ok none | some i ↦ do rid ← Leaf.value_at page i; ok (some rid) ]

-- The search and the change of a leaf in `update_value`.
unfoldable pub leaf_update : List ℕ → ℤ → Rid → Result (Bool × List ℕ)
unfolding get_size find_key Leaf.set_value_at
leaf_update page key new_value = do
  size ← get_size page
  found ← find_key page key size 0
  elim found [
    | none ↦ ok (false, page)
    | some i ↦ do page' ← Leaf.set_value_at page i new_value; ok (true, page')
  ]

-- "Shift elements" of `delete`: `count` entries after `j` move down by one, the first first.
unfoldable pub close_gap : List ℕ → ℕ → ℕ → Result (List ℕ)
unfolding Leaf.key_at Leaf.value_at Leaf.set_key_at Leaf.set_value_at
close_gap page j zero = ok page
close_gap page j (suc count) = do
  next_key ← Leaf.key_at page (j + 1)
  next_val ← Leaf.value_at page (j + 1)
  d1 ← Leaf.set_key_at page j next_key
  d2 ← Leaf.set_value_at d1 j next_val
  close_gap d2 (j + 1) count

-- The search and the change of a leaf in `delete`.
unfoldable pub leaf_delete : List ℕ → ℤ → Result (Bool × List ℕ)
unfolding get_size find_key close_gap set_size
leaf_delete page key = do
  size ← get_size page
  found ← find_key page key size 0
  elim found [
    | none ↦ ok (false, page)
    | some i ↦ do
      page' ← close_gap page i (size - 1 - i)
      page'' ← set_size page' (size - 1)
      ok (true, page'')
  ]

-- `hash` is the standard library's hasher.
module _ (hash : ℕ → ℕ) where
  -- `BPlusTree::new`: `new_page` pins the page, and so does `fetch_page`; one pin is dropped.
  unfoldable pub new : BufferPoolManager → Result (BPlusTree × BufferPoolManager)
  unfolding new_page must_open save_page Leaf.init
  new m = do
    (allocated, m1) ← new_page hash m
    elim allocated [
      | none ↦ panic
      | some root_page_id ↦ do
        (page, m2) ← must_open hash m1 root_page_id
        page' ← Leaf.init page root_page_id 0 leaf_max_size
        ok (record { root_page_id = root_page_id }, save_page hash m2 root_page_id page')
    ]

  -- `BPlusTree::is_empty`
  unfoldable pub is_empty : BufferPoolManager → BPlusTree → Result (Bool × BufferPoolManager)
  unfolding open_page close_page get_size
  is_empty m tree = do
    (opened, m1) ← open_page hash m tree.root_page_id
    elim opened [
      | none ↦ ok (true, m1)
      | some page ↦ do size ← get_size page; ok (size == 0, close_page hash m1 tree.root_page_id)
    ]

  -- The loop of `get_value`.
  unfoldable pub get_value_from :
      ℕ → BufferPoolManager → ℕ → ℤ → Result (Option Rid × BufferPoolManager)
  unfolding open_page close_page is_leaf_page leaf_value Internal.lookup
  get_value_from zero m current_page_id key = fail
  get_value_from (suc rounds) m current_page_id key = do
    (opened, m1) ← open_page hash m current_page_id
    elim opened [
      | none ↦ ok (none, m1)
      | some page ↦ do
        leaf ← is_leaf_page page
        elim leaf [
          | true ↦ do value ← leaf_value page key; ok (value, close_page hash m1 current_page_id)
          | false ↦ do
            next_page_id ← Internal.lookup page key
            get_value_from rounds (close_page hash m1 current_page_id) next_page_id key
        ]
    ]

  -- `BPlusTree::get_value`
  unfoldable pub get_value :
      ℕ → BufferPoolManager → BPlusTree → ℤ → Result (Option Rid × BufferPoolManager)
  unfolding get_value_from
  get_value rounds m tree key = get_value_from rounds m tree.root_page_id key

  -- The loop of `find_leaf_page`.
  unfoldable pub find_leaf_from : ℕ → BufferPoolManager → ℕ → ℤ → Result (ℕ × BufferPoolManager)
  unfolding must_open close_page is_leaf_page Internal.lookup
  find_leaf_from zero m current_page_id key = fail
  find_leaf_from (suc rounds) m current_page_id key = do
    (page, m1) ← must_open hash m current_page_id
    leaf ← is_leaf_page page
    elim leaf [
      | true ↦ ok (current_page_id, close_page hash m1 current_page_id)
      | false ↦ do
        next_page_id ← Internal.lookup page key
        find_leaf_from rounds (close_page hash m1 current_page_id) next_page_id key
    ]

  -- `BPlusTree::find_leaf_page`
  unfoldable pub find_leaf_page :
      ℕ → BufferPoolManager → BPlusTree → ℤ → Result (ℕ × BufferPoolManager)
  unfolding find_leaf_from
  find_leaf_page rounds m tree key = find_leaf_from rounds m tree.root_page_id key

  -- The end of `update_value` and `delete`: a leaf that was changed is saved.
  unfoldable pub finish : BufferPoolManager → ℕ → Bool × List ℕ → Bool × BufferPoolManager
  unfolding save_page close_page
  finish m page_id (true, page) = (true, save_page hash m page_id page)
  finish m page_id (false, page) = (false, close_page hash m page_id)

  -- `BPlusTree::update_value`
  unfoldable pub update_value :
      ℕ → BufferPoolManager → BPlusTree → ℤ → Rid → Result (Bool × BufferPoolManager)
  unfolding find_leaf_page must_open leaf_update finish
  update_value rounds m tree key new_value = do
    (leaf_page_id, m1) ← find_leaf_page rounds m tree key
    (page, m2) ← must_open hash m1 leaf_page_id
    updated ← leaf_update page key new_value
    ok (finish m2 leaf_page_id updated)

  -- `BPlusTree::delete`
  unfoldable pub delete : ℕ → BufferPoolManager → BPlusTree → ℤ → Result (Bool × BufferPoolManager)
  unfolding find_leaf_page must_open leaf_delete finish
  delete rounds m tree key = do
    (leaf_page_id, m1) ← find_leaf_page rounds m tree key
    (page, m2) ← must_open hash m1 leaf_page_id
    deleted ← leaf_delete page key
    ok (finish m2 leaf_page_id deleted)
