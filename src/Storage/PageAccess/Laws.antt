-- ===== src/Storage/PageAccess/Laws.antt =====
-- Opening, closing and saving a page: it is whole, and the others stay
-- (src/storage/table/table_heap.rs, src/storage/index/b_plus_tree.rs).
use dip_v.Base.{ℕ, ◌≡◌, refl, ◌==◌, true, false, List, length, arith, some, ok}
use dip_v.Storage.Disk.{page_size}
use dip_v.Storage.PoolManager.{BufferPoolManager, write_to_page}
use dip_v.Storage.PoolManager.Invariant.{page_content}
use dip_v.Storage.PoolManager.Calls.{
  Same, Saved, Ready, Held, fetch_page_lem, unpin_page_lem, write_to_page_lem, read_from_page_lem,
}
use dip_v.Storage.PageAccess.{copy_page, open_page, save_page, close_page}

module _ (hash : ℕ → ℕ) where
  copy_page_lem :
      (m : BufferPoolManager) (p f : ℕ) (page : List ℕ)
      → Held hash m p f
      → page_content hash m p ≡ ok page
      → (copy_page hash m p ≡ ok page) × (length page ≡ page_size)
  unfolding copy_page
  copy_page_lem m p f page held h =
      let (read, size) = read_from_page_lem hash m p f page held h in
      let whole : (length page == page_size) ≡ true = ground arith in (rw (read, whole) refl, size)

  pub open_page_lem :
      (m : BufferPoolManager) (p : ℕ) (page : List ℕ)
      → Ready hash m
      → page_content hash m p ≡ ok page
      → (f : ℕ) × (m' : BufferPoolManager) × (open_page hash m p ≡ ok (some page, m'))
        × Same hash m m'
        × Held hash m' p f
        × (length page ≡ page_size)
  unfolding open_page
  open_page_lem m p page ready h =
      let (f, m', runs, same, held) = fetch_page_lem hash m p page ready h in
      let (copied, size) = copy_page_lem m' p f page held (same.same p page h) in
      (f, m', rw (runs, copied) refl, same, held, size)

  pub close_page_lem :
      (m : BufferPoolManager) (p f : ℕ)
      → Held hash m p f
      → Same hash m (close_page hash m p) × Ready hash (close_page hash m p)
  unfolding close_page
  close_page_lem m p f held = unpin_page_lem hash m p f false held

  pub save_page_lem :
      (m : BufferPoolManager) (p f : ℕ) (page : List ℕ)
      → Held hash m p f
      → length page ≡ page_size
      → Saved hash m (save_page hash m p page) p page × Ready hash (save_page hash m p page)
  unfolding save_page
  save_page_lem m p f page held size =
      let (saved, held') = write_to_page_lem hash m p f page held size in
      let (same, ready) = unpin_page_lem hash (write_to_page hash m p page) p f true held' in
      (
        record {
          valid = same.valid;
          now = same.same p page saved.now;
          others = λ q old apart h. same.same q old (saved.others q old apart h);
        },
        ready,
      )
