-- ===== src/Storage/TableHeap/Tests.antt =====
-- A table of one page, and of two, to try (src/storage/table/table_heap.rs).
use dip_v.Base.{
  Option, ℕ, ◌+◌, ◌*◌, ◌≡◌, refl, true, List, [], ◌∷◌, ◌++◌, length, length-append, arith, none,
  some, ok, ltb, leb, ◌∙◌,
}
use dip_v.Base.Bytes.{slice_mid}
use dip_v.Storage.Disk.{DiskManager, page_size, zeros, read_page}
use dip_v.Storage.Disk.Laws.{length-zeros}
use dip_v.Storage.Rid
use dip_v.Storage.Rid.{Rid}
use dip_v.Storage.Tuple
use dip_v.Storage.Tuple.{Tuple, set_rid}
use dip_v.Storage.SlottedPage.Init.{init_lem}
use dip_v.Storage.SlottedPage.Layout.{placed, placed-length}
use dip_v.Storage.SlottedPage.Insert
use dip_v.Storage.SlottedPage.Insert.{IsPage}
use dip_v.Storage.BufferPool
use dip_v.Storage.BufferPool.{lookup}
use dip_v.Storage.BufferPool.Content.{content_absent}
use dip_v.Storage.PoolManager.{BufferPoolManager, new, shard, get_shard_idx}
use dip_v.Storage.PoolManager.Invariant.{page_content}
use dip_v.Storage.PoolManager.Calls.{Same, Ready}
use dip_v.Storage.PoolManager.Start.{new-Ready, Started, new_lem}
use dip_v.Storage.TableHeap.{
  rollback_delete, with_rid, from_first_page_id, get_tuple, mark_delete, insert_tuple,
}
use dip_v.Storage.TableHeap.View.{view, view_page, get_tuple_table, Hidden, mark_delete_table}
use dip_v.Storage.TableHeap.Undo.{rollback_delete-mark_delete}
use dip_v.Storage.TableHeap.Chain.{here, Added, insert_tuple_table}

abbrev pub hash : ℕ → ℕ
hash n = n

-- A page of the file is read from it.
pub on_disk :
    (pre page rest : List ℕ) (p next : ℕ)
    → p * 4096 ≡ length pre
    → length page ≡ 4096
    → read_page (record { file = pre ++ (page ++ rest); next_page_id = next }) p page_size ≡ ok page
unfolding read_page
on_disk pre page rest p next place size =
    let inside : ltb (p * page_size) (length (pre ++ (page ++ rest))) ≡ true =
      ground (arith, length-append pre (page ++ rest), length-append page rest) in
    let whole : leb (p * page_size + page_size) (length (pre ++ (page ++ rest))) ≡ true =
      ground (arith, size, length-append pre (page ++ rest), length-append page rest) in
    rw
      (
        inside,
        whole,
        slice_mid pre page rest (p * page_size) (p * page_size + page_size) place
            (omega (arith, place, size)),
      )
      refl

-- In a new pool a page holds what is on disk.
pub at_start :
    (disk : DiskManager) (p : ℕ) (page : List ℕ)
    → read_page disk p page_size ≡ ok page
    → page_content hash (new 64 disk) p ≡ ok page
unfolding page_content new BufferPool.new lookup
at_start disk p page h = content_absent (shard (new 64 disk) (get_shard_idx hash p)) p refl ∙ h

new_lem_example :
    Ready (λ n. n * 31) (new 200 (record { file = []; next_page_id = 0 }))
    × Started 200 (new 200 (record { file = []; next_page_id = 0 }))
new_lem_example = new_lem (λ n. n * 31) 200 (record { file = []; next_page_id = 0 })

-- A page with no tuple, and one with a tuple of two bytes.
abbrev fresh : List ℕ
fresh = (init_lem (zeros 4096) 0 (length-zeros 4096) (omega arith)).0

fresh-IsPage : IsPage fresh 0 4096
fresh-IsPage = (init_lem (zeros 4096) 0 (length-zeros 4096) (omega arith)).2

abbrev hi : Tuple
hi = record { bytes = 104 ∷ 105 ∷ []; rid = none }

abbrev filled : List ℕ
filled = (Insert.insert_tuple_lem fresh 0 4096 hi fresh-IsPage (omega arith) (omega arith)).0

filled-Inserted : Insert.Inserted fresh 0 4096 hi filled
filled-Inserted =
    (Insert.insert_tuple_lem fresh 0 4096 hi fresh-IsPage (omega arith) (omega arith)).2

-- A pool over a file of one page, on which the tuple is.
abbrev disk : DiskManager
disk = record { file = [] ++ (filled ++ []); next_page_id = 1 }

abbrev pool : BufferPoolManager
pool = new 64 disk

abbrev first_rid : Rid
first_rid = Rid.new 0 0

there : page_content hash pool 0 ≡ ok filled
there = at_start disk 0 filled (on_disk [] filled [] 0 1 refl filled-Inserted.valid.size)

get_tuple_table_example :
    (m' : BufferPoolManager) × (get_tuple hash pool first_rid
      ≡ ok (some (set_rid (Tuple.new (104 ∷ 105 ∷ [])) first_rid), m'))
    × Same hash pool m'
    × Ready hash m'
unfolding with_rid
get_tuple_table_example =
    get_tuple_table hash pool first_rid (some (set_rid (Tuple.new (104 ∷ 105 ∷ [])) first_rid))
      (new-Ready hash 64 disk)
      (view_page hash pool first_rid filled (some (Tuple.new (104 ∷ 105 ∷ []))) there
        filled-Inserted.reads)

mark_delete_table_example :
    (m' : BufferPoolManager) × (mark_delete hash pool first_rid ≡ ok (true, m'))
    × Hidden hash pool first_rid 1 4094 m'
mark_delete_table_example =
    mark_delete_table hash pool first_rid filled 1 4094 (new-Ready hash 64 disk) there
      filled-Inserted.valid (omega arith)

insert_tuple_table_example :
    (m' : BufferPoolManager) × (insert_tuple hash 1 (from_first_page_id 0) pool hi
      ≡ ok (some (Rid.new 0 1), m'))
    × Added hash pool hi (Rid.new 0 1) m'
insert_tuple_table_example =
    insert_tuple_table hash pool (from_first_page_id 0) hi 0 1 0 1 4094 filled (omega arith)
      (new-Ready hash 64 disk) (omega arith) (here 0) there filled-Inserted.valid (omega arith)

-- The same tuple, on a page whose bytes are known.
abbrev written : List ℕ
written = placed fresh (104 ∷ 105 ∷ []) 0 4096

written-IsPage : IsPage written 1 4094
written-IsPage = Insert.placed-IsPage fresh 0 4096 (104 ∷ 105 ∷ []) fresh-IsPage (omega arith)

abbrev written_disk : DiskManager
written_disk = record { file = [] ++ (written ++ []); next_page_id = 1 }

rollback_delete-mark_delete_example :
    (m1 : BufferPoolManager) × (m2 : BufferPoolManager) × (mark_delete hash
        (new 64 written_disk)
        first_rid
      ≡ ok (true, m1))
    × (rollback_delete hash m1 first_rid 2 ≡ ok (true, m2))
    × Ready hash m2
    × ((other : Rid) (shown : Option Tuple)
        → view hash (new 64 written_disk) other ≡ ok shown
        → view hash m2 other ≡ ok shown)
unfolding Tuple.new
rollback_delete-mark_delete_example =
    rollback_delete-mark_delete hash (new 64 written_disk) first_rid written 1 4094 2
      (Tuple.new (104 ∷ 105 ∷ [])) (new-Ready hash 64 written_disk)
      (at_start written_disk 0 written (on_disk [] written [] 0 1 refl written-IsPage.size))
      written-IsPage (omega arith)
      (placed-length fresh (104 ∷ 105 ∷ []) 0 4096 fresh-IsPage.size (omega arith) (omega arith))
      (omega arith)
      (Insert.reads_back fresh 0 4096 (104 ∷ 105 ∷ []) fresh-IsPage (omega arith) (omega arith))
