-- ===== src/Storage/PageAccess.antt =====
-- How the tables and the indexes read and write a page: a copy of its bytes while it is pinned
-- (src/storage/table/table_heap.rs, src/storage/index/b_plus_tree.rs).
pub mod Laws
use dip_v.Base.{
  ℕ, true, false, List, length, ◌==◌, Option, none, some, Result, ok, panic, ◌>>=◌, ◌>>◌, assert,
}
use dip_v.Storage.Disk.{page_size}
use dip_v.Storage.PoolManager.{
  BufferPoolManager, fetch_page, unpin_page, write_to_page, read_from_page,
}

-- `hash` is the standard library's hasher.
module _ (hash : ℕ → ℕ) where
  -- `read_from_page` and `copy_from_slice`, which panics on another length
  unfoldable pub copy_page : BufferPoolManager → ℕ → Result (List ℕ)
  unfolding read_from_page
  copy_page m page_id = do
    let page = read_from_page hash m page_id
    assert (length page == page_size)
    ok page

  -- `fetch_page`, and the page's bytes if it was there
  unfoldable pub open_page : BufferPoolManager → ℕ → Result (Option (List ℕ) × BufferPoolManager)
  unfolding fetch_page copy_page
  open_page m page_id = do
    (frame, m1) ← fetch_page hash m page_id
    elim frame [
      | none ↦ ok (none, m1)
      | some f ↦ do page ← copy_page m1 page_id; ok (some page, m1)
    ]

  -- `write_to_page` and `unpin_page`
  unfoldable pub save_page : BufferPoolManager → ℕ → List ℕ → BufferPoolManager
  unfolding write_to_page unpin_page
  save_page m page_id page =
      let (_, m2) = unpin_page hash (write_to_page hash m page_id page) page_id true in m2

  -- `unpin_page(.., false)`
  unfoldable pub close_page : BufferPoolManager → ℕ → BufferPoolManager
  unfolding unpin_page
  close_page m page_id = let (_, m1) = unpin_page hash m page_id false in m1

  -- `fetch_page(..).unwrap()`, and the page's bytes
  unfoldable pub must_open : BufferPoolManager → ℕ → Result (List ℕ × BufferPoolManager)
  unfolding open_page
  must_open m page_id = do
    (opened, m1) ← open_page m page_id
    elim opened [ none ↦ panic | some page ↦ ok (page, m1) ]
