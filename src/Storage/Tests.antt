-- ===== src/Storage/Tests.antt =====
-- Pools, pages and rows to try the storage engine on (src/storage).
use dip_v.Base.{
  ℕ, ◌≡◌, ◌≢◌, refl, Bool, true, false, List, [], ◌∷◌, Option, none, some, ok, arith, ◌==◌,
  if◌then◌else◌,
}
use dip_v.Base.Int.{pos}
use dip_v.Base.Bytes.{index}
use dip_v.Types.{Value, TypeId, is_utf8, get_type_id}
use dip_v.Catalog.Schema.{Schema}
use dip_v.Storage.Tuple.{Tuple, from_values, get_value}
use dip_v.Storage.Tuple.RoundTrip.{get_value-from_values}
use dip_v.Storage.Disk.{DiskManager, page_size, zeros, write_page, read_page}
use dip_v.Storage.Disk.Laws.{length-zeros, read_page-write_page}
use dip_v.Storage.Page.{Page}
use dip_v.Storage.Page
use dip_v.Storage.Replacer.{contains}
use dip_v.Storage.BufferPool.{
  BufferPoolInstance, lookup, fetch_page, write_to_page, flush_page, unpin_page,
}
use dip_v.Storage.BufferPool.Table.{distinct}
use dip_v.Storage.BufferPool.Invariant.{IsPool}
use dip_v.Storage.BufferPool.Content.{IsSynced}
use dip_v.Storage.BufferPool.Fetch.{Fetched, fetch_page_lem}
use dip_v.Storage.BufferPool.Update.{Written, write_to_page_lem, Flushed, flush_page_lem}
use dip_v.Storage.BufferPool.Unpin.{Unpinned, unpin_page_lem}
use dip_v.Base.{subst, take, drop}
use dip_v.Base.Int.{of_bits, leb_ℤ}
use dip_v.Base.Bytes.{slice, u32_from_le_bytes}
use dip_v.Storage.Index.Header.{word_at, get_size}
use dip_v.Storage.Index.Internal
use dip_v.Storage.Index.Internal.{key_at, value_at}
use dip_v.Storage.Index.Search.{HasKeys, IsChild, lookup_lem}
use dip_v.Storage.BufferPool.{new_page}
use dip_v.Storage.BufferPool.NewPage.{Added, new_page_lem}
use dip_v.Storage.SlottedPage.{init, get_u32, insert_tuple, mark_delete}
use dip_v.Storage.SlottedPage.Init.{init_lem}
use dip_v.Storage.SlottedPage.Insert.{IsPage, Inserted, insert_tuple_lem, insert_tuple_full}
use dip_v.Storage.SlottedPage.Delete.{Deleted, mark_delete_lem}

abbrev disk : DiskManager
disk = record { file = zeros 8192; next_page_id = 2 }

read_page-write_page_example :
    (d' : DiskManager) × (write_page disk 1 (zeros 4096) ≡ ok d')
    × (read_page d' 1 page_size ≡ ok (zeros 4096))
    × ((q : ℕ) (old : List ℕ)
        → 1 ≢ q
        → read_page disk q page_size ≡ ok old
        → read_page d' q page_size ≡ ok old)
read_page-write_page_example = read_page-write_page disk 1 (zeros 4096) (length-zeros 4096)

-- Page 7 is pinned and dirty in frame 0; frame 1 holds page 5 and can be evicted.
abbrev pool : BufferPoolInstance
pool = record {
  disk_manager = disk;
  replacer = record { frames = 1 ∷ [] };
  pages = λ f.
      if f == 0
      then record { id = some 7; pin_count = 1; is_dirty = true; bytes = zeros 4096 }
      else (if f == 1
          then record { id = some 5; pin_count = 0; is_dirty = true; bytes = zeros 4096 }
          else Page.new);
  pool_size = 2;
  page_table = (7, 0) ∷ (5, 1) ∷ [];
  free_list = [];
}

pool-IsPool : IsPool pool
unfolding lookup contains distinct Page.new
pool-IsPool = record {
  mapped = λ p f h. ground arith;
  tracked = λ f p h. ground arith;
  free = λ f h. ground arith;
  free_once = refl;
  evictable = λ f h. ground arith;
  once = refl;
  sized = λ f. ground (arith, length-zeros 4096);
  inside = λ p f h. ground arith;
  inside_free = λ f h. ground arith;
  inside_idle = λ f h. ground arith;
}

pool-IsSynced : IsSynced pool
unfolding IsSynced lookup
pool-IsSynced q f h k = ground arith

fetch_page_lem_example :
    (out : Option ℕ × BufferPoolInstance) × (fetch_page pool 1 ≡ ok out) × Fetched pool 1 out
fetch_page_lem_example = fetch_page_lem pool 1 pool-IsPool pool-IsSynced

write_to_page_lem_example : Written pool 7 (zeros 4096) (write_to_page pool 7 (zeros 4096))
unfolding lookup
write_to_page_lem_example =
    write_to_page_lem pool 7 0 (zeros 4096) pool-IsPool pool-IsSynced refl (length-zeros 4096)

flush_page_lem_example :
    (out : Bool × BufferPoolInstance) × (flush_page pool 7 ≡ ok out) × Flushed pool 7 0 out
unfolding lookup
flush_page_lem_example = flush_page_lem pool 7 0 pool-IsPool pool-IsSynced refl

unpin_page_lem_example : Unpinned pool 7 (unpin_page pool 7 false)
unpin_page_lem_example = unpin_page_lem pool 7 false pool-IsPool pool-IsSynced

new_page_lem_example :
    (out : Option ℕ × BufferPoolInstance) × (new_page pool 9 ≡ ok out) × Added pool 9 out
unfolding lookup
new_page_lem_example = new_page_lem pool 9 pool-IsPool pool-IsSynced refl

init_lem_example :
    (page' : List ℕ) × (init (zeros 4096) 9 ≡ ok page')
    × IsPage page' 0 4096
    × (get_u32 page' 8 ≡ ok 9)
init_lem_example = init_lem (zeros 4096) 9 (length-zeros 4096) (omega arith)

abbrev fresh : List ℕ
fresh = (init_lem (zeros 4096) 9 (length-zeros 4096) (omega arith)).0

fresh-IsPage : IsPage fresh 0 4096
fresh-IsPage = (init_lem (zeros 4096) 9 (length-zeros 4096) (omega arith)).2

abbrev hello : Tuple
hello = record { bytes = 72 ∷ 101 ∷ 108 ∷ 108 ∷ 111 ∷ []; rid = none }

insert_tuple_lem_example :
    (page' : List ℕ) × (insert_tuple fresh hello ≡ ok (some 0, page'))
    × Inserted fresh 0 4096 hello page'
insert_tuple_lem_example =
    insert_tuple_lem fresh 0 4096 hello fresh-IsPage (omega arith) (omega arith)

-- A page with one tuple.
abbrev filled : List ℕ
filled = (insert_tuple_lem fresh 0 4096 hello fresh-IsPage (omega arith) (omega arith)).0

filled-IsPage : IsPage filled 1 4091
filled-IsPage =
    (insert_tuple_lem fresh 0 4096 hello fresh-IsPage (omega arith) (omega arith)).2.valid

mark_delete_lem_example :
    (page' : List ℕ) × (mark_delete filled 0 ≡ ok (true, page')) × Deleted filled 1 4091 0 page'
mark_delete_lem_example = mark_delete_lem filled 1 4091 0 filled-IsPage (omega arith)

abbrev large : Tuple
large = record { bytes = zeros 5000; rid = none }

insert_tuple_full_example : insert_tuple filled large ≡ ok (none, filled)
insert_tuple_full_example =
    insert_tuple_full filled 1 4091 large filled-IsPage (omega (arith, length-zeros 5000))
      (omega (arith, length-zeros 5000))

abbrev schema : Schema
schema = record {
  columns =
      record { name = 97 ∷ []; type_id = TypeId.integer; is_primary = true }
      ∷ record { name = 98 ∷ []; type_id = TypeId.varchar; is_primary = false }
      ∷ [];
}

abbrev values : List Value
values = Value.integer (pos 42) ∷ Value.varchar (104 ∷ 105 ∷ []) ∷ []

get_value-from_values_example :
    (t : Tuple) × (from_values values schema ≡ ok t)
    × (get_value t schema 1 ≡ ok (Value.varchar (104 ∷ 105 ∷ [])))
unfolding index is_utf8 get_type_id
get_value-from_values_example =
    get_value-from_values values schema 1 (Value.varchar (104 ∷ 105 ∷ []))
      (
        refl,
        (omega arith, omega arith),
        (refl, ((omega arith, (omega arith, tt)), refl, omega arith), tt),
      )
      refl

-- An internal page with two children, parted by the key 10.
abbrev inner : List ℕ
inner =
    1 ∷ 0 ∷ 0 ∷ 0 ∷ 2 ∷ 0 ∷ 0 ∷ 0 ∷ 0 ∷ 0 ∷ 0 ∷ 0 ∷ 0 ∷ 0 ∷ 0 ∷ 0 ∷ 0 ∷ 0 ∷ 0 ∷ 0 ∷ 0 ∷ 0 ∷ 0 ∷ 0
    ∷ 0 ∷ 0 ∷ 0 ∷ 0 ∷ 5 ∷ 0 ∷ 0 ∷ 0 ∷ 10 ∷ 0 ∷ 0 ∷ 0 ∷ 6 ∷ 0 ∷ 0 ∷ 0 ∷ []

inner-HasKeys : HasKeys inner 2 (λ i. pos 10)
unfolding key_at word_at slice u32_from_le_bytes of_bits take drop
inner-HasKeys = record {
  reads = λ i p q.
      let at : 1 ≡ i = omega arith in subst (λ (n : ℕ). key_at inner n ≡ ok (pos 10)) at refl;
  sorted = λ i j p q r. unfold leb_ℤ in refl;
}

lookup_lem_example :
    (idx : ℕ) × (Internal.lookup inner (pos 12) ≡ value_at inner idx)
    × IsChild 2 (λ i. pos 10) (pos 12) idx
unfolding get_size word_at slice u32_from_le_bytes take drop
lookup_lem_example =
    lookup_lem inner 2 (λ i. pos 10) (pos 12) inner-HasKeys refl (omega arith) (omega arith)
