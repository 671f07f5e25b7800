-- ===== src/Storage/BufferPool.antt =====
-- One shard of the buffer pool (src/storage/buffer_pool_instance.rs).
-- A method returns its result beside the new state; `panic` is an `unwrap` that fails.
pub mod Table
pub mod Invariant
pub mod Content
pub mod Fetch
pub mod Update
pub mod Unpin
pub mod NewPage
use dip_v.Base.{
  ℕ, zero, suc, ◌+◌, ◌-◌, ◌%◌, ◌^◌, ◌≡◌, Bool, true, false, ◌&&◌, List, [], ◌∷◌, length, take, leb,
  ltb, assert, ◌>>◌, ◌==◌, if◌then◌else◌, Option, none, some, Result, ok, fail, panic, ◌>>=◌,
}
use dip_v.Base.Splice.{splice}
use dip_v.Storage.Disk.{DiskManager, page_size, write_page, read_page}
use dip_v.Storage.Page
use dip_v.Storage.Page.{Page}
use dip_v.Storage.Replacer
use dip_v.Storage.Replacer.{LruReplacer}

-- `pages` is the vector of frames, by index, and `pool_size` its length: `assert (ltb i pool_size)` is
-- the bounds check of `pages[i]`. The three methods that cannot fail in the model, `unpin_page`,
-- `write_to_page` and `read_from_page`, index it only by frames of the page table. The head of
-- `free_list` is what `pop` takes.
pub record BufferPoolInstance : Type 0 where
  pub disk_manager : DiskManager
  pub replacer : LruReplacer
  pub pages : ℕ → Page
  pub pool_size : ℕ
  pub page_table : List (ℕ × ℕ)
  pub free_list : List ℕ

-- The frames `0 .. n`, pushed in this order.
unfoldable pub frames_below : ℕ → List ℕ
frames_below zero = []
frames_below (suc n) = n ∷ frames_below n

-- `BufferPoolInstance::new`
unfoldable pub new : ℕ → DiskManager → BufferPoolInstance
unfolding frames_below
new pool_size disk = record {
  disk_manager = disk;
  replacer = Replacer.new;
  pages = λ i. Page.new;
  pool_size = pool_size;
  page_table = [];
  free_list = frames_below pool_size;
}

-- `HashMap::get`, `insert` and `remove`
unfoldable pub lookup : ℕ → List (ℕ × ℕ) → Option ℕ
lookup page_id ((p, frame_id) ∷ rest) = if p == page_id then some frame_id else lookup page_id rest
lookup page_id [] = none

unfoldable pub insert : ℕ → ℕ → List (ℕ × ℕ) → List (ℕ × ℕ)
insert page_id frame_id ((p, f) ∷ rest) =
    if p == page_id then (page_id, frame_id) ∷ rest else (p, f) ∷ insert page_id frame_id rest
insert page_id frame_id [] = (page_id, frame_id) ∷ []

unfoldable pub remove : ℕ → List (ℕ × ℕ) → List (ℕ × ℕ)
remove page_id [] = []
remove page_id ((p, f) ∷ table) =
    let rest = remove page_id table in if p == page_id then rest else (p, f) ∷ rest

-- A write to the page in a frame.
abbrev pub set_page : (ℕ → Page) → ℕ → Page → ℕ → Page
set_page pages f page = λ g. if g == f then page else pages g

-- `write_page(..).unwrap()`
unfoldable pub must_write : DiskManager → ℕ → List ℕ → Result DiskManager
must_write d page_id bytes = elim (write_page d page_id bytes) [
  | ok d' ↦ ok d'
  | fail ↦ panic
  | panic ↦ panic
]

-- The dirty page of an evicted frame goes to disk.
unfoldable pub write_back : DiskManager → Page → Result DiskManager
unfolding must_write
write_back d page = elim page.id [
  | none ↦ ok d
  | some pid ↦ if page.is_dirty then must_write d pid page.bytes else ok d
]

abbrev pub unmap : Option ℕ → List (ℕ × ℕ) → List (ℕ × ℕ)
unmap none table = table
unmap (some pid) table = remove pid table

-- `BufferPoolInstance::find_victim_frame`
unfoldable pub find_victim_frame : BufferPoolInstance → Result (Option ℕ × BufferPoolInstance)
unfolding write_back remove
find_victim_frame pool = elim pool.free_list [
  | frame_id ∷ rest ↦ ok (some frame_id, record pool { free_list = rest })
  | [] ↦
      let (found, replacer) = Replacer.victim pool.replacer in
      elim found [
        | none ↦ ok (none, pool)
        | some frame_id ↦ do
          assert (ltb frame_id pool.pool_size)
          let page = pool.pages frame_id
          disk ← write_back pool.disk_manager page
          ok (
            some frame_id,
            record pool {
              disk_manager = disk;
              replacer = replacer;
              pages =
                  set_page pool.pages frame_id (
                    Page.reset_memory (record page { id = none; pin_count = 0; is_dirty = false }));
              page_table = unmap page.id pool.page_table;
            },
          )
      ]
]

-- The last statements of `fetch_page` and `new_page`: the frame holds the page, pinned once.
unfoldable pub install : BufferPoolInstance → ℕ → ℕ → List ℕ → BufferPoolInstance
unfolding insert
install pool page_id frame_id bytes = record pool {
  pages =
      set_page pool.pages frame_id
        (record { id = some page_id; pin_count = 1; is_dirty = false; bytes = bytes });
  page_table = insert page_id frame_id pool.page_table;
  replacer = Replacer.pin pool.replacer frame_id;
}

-- `read_page(..).ok()?` and what follows; on an error the frame is not given back.
unfoldable pub load : BufferPoolInstance → ℕ → ℕ → Result (Option ℕ × BufferPoolInstance)
unfolding install
load pool page_id frame_id = do
  assert (ltb frame_id pool.pool_size)
  elim (read_page pool.disk_manager page_id (length (pool.pages frame_id).bytes)) [
    | ok bytes ↦ ok (some frame_id, install pool page_id frame_id bytes)
    | fail ↦ ok (none, pool)
    | panic ↦ panic
  ]

abbrev pub or_none :
    Option ℕ × BufferPoolInstance
    → (ℕ → BufferPoolInstance → Result (Option ℕ × BufferPoolInstance))
    → Result (Option ℕ × BufferPoolInstance)
or_none (none, pool) k = ok (none, pool)
or_none (some frame_id, pool) k = k frame_id pool

-- The page is in the pool already: one more pin.
unfoldable pub pin_again : BufferPoolInstance → ℕ → BufferPoolInstance
pin_again pool frame_id =
    let page = pool.pages frame_id in
    record pool {
      pages =
          set_page pool.pages frame_id (record page { pin_count = (page.pin_count + 1) % 2 ^ 32 });
      replacer = Replacer.pin pool.replacer frame_id;
    }

-- `BufferPoolInstance::fetch_page`
unfoldable pub fetch_page : BufferPoolInstance → ℕ → Result (Option ℕ × BufferPoolInstance)
unfolding find_victim_frame load pin_again lookup
fetch_page pool page_id = elim (lookup page_id pool.page_table) [
  | some frame_id ↦ do
    assert (ltb frame_id pool.pool_size)
    ok (some frame_id, pin_again pool frame_id)
  | none ↦ do
    found ← find_victim_frame pool
    or_none found (λ frame_id pool'. load pool' page_id frame_id)
]

-- What follows the search for a frame in `new_page`.
unfoldable pub new_install : ℕ → ℕ → BufferPoolInstance → Result (Option ℕ × BufferPoolInstance)
unfolding install
new_install page_id frame_id pool = do
  assert (ltb frame_id pool.pool_size)
  ok (some frame_id, install pool page_id frame_id (pool.pages frame_id).bytes)

-- `BufferPoolInstance::new_page`
unfoldable pub new_page : BufferPoolInstance → ℕ → Result (Option ℕ × BufferPoolInstance)
unfolding find_victim_frame new_install
new_page pool page_id = do found ← find_victim_frame pool; or_none found (new_install page_id)

-- `BufferPoolInstance::unpin_page`
unfoldable pub unpin_page : BufferPoolInstance → ℕ → Bool → Bool × BufferPoolInstance
unfolding lookup
unpin_page pool page_id is_dirty = elim (lookup page_id pool.page_table) [
  | none ↦ (false, pool)
  | some frame_id ↦
      let page = pool.pages frame_id in
      if page.pin_count == 0 then (false, pool) else (
        true,
        record pool {
          pages = set_page pool.pages frame_id (record page {
            pin_count = page.pin_count - 1;
            is_dirty = if is_dirty then true else page.is_dirty;
          });
          replacer =
              if page.pin_count - 1 == 0
              then Replacer.unpin pool.replacer frame_id
              else pool.replacer;
        },
      )
]

-- `BufferPoolInstance::flush_page`
unfoldable pub flush_page : BufferPoolInstance → ℕ → Result (Bool × BufferPoolInstance)
unfolding must_write lookup
flush_page pool page_id = elim (lookup page_id pool.page_table) [
  | none ↦ ok (false, pool)
  | some frame_id ↦ do
    assert (ltb frame_id pool.pool_size)
    let page = pool.pages frame_id
    if page.is_dirty
        then (do
          disk ← must_write pool.disk_manager page_id page.bytes
          ok (
            true,
            record pool {
              disk_manager = disk;
              pages = set_page pool.pages frame_id (record page { is_dirty = false });
            },
          ))
        else ok (true, pool)
]

-- The loop of `flush_all` over the keys of the page table.
unfoldable pub flush_each : BufferPoolInstance → List (ℕ × ℕ) → Result BufferPoolInstance
unfolding flush_page
flush_each pool [] = ok pool
flush_each pool ((pid, _) ∷ rest) = do (_, pool') ← flush_page pool pid; flush_each pool' rest

-- `BufferPoolInstance::flush_all`
unfoldable pub flush_all : BufferPoolInstance → Result BufferPoolInstance
unfolding flush_each
flush_all pool = flush_each pool pool.page_table

-- `BufferPoolInstance::write_to_page`
unfoldable pub write_to_page : BufferPoolInstance → ℕ → List ℕ → BufferPoolInstance
unfolding lookup
write_to_page pool page_id bytes = elim (lookup page_id pool.page_table) [
  | none ↦ pool
  | some frame_id ↦
      let page = pool.pages frame_id in
      let len = if leb (length bytes) page_size then length bytes else page_size in
      record pool {
        pages =
            set_page pool.pages frame_id
              (record page { bytes = splice page.bytes 0 (take len bytes); is_dirty = true });
      }
]

-- `BufferPoolInstance::read_from_page`: an absent page reads as no bytes.
unfoldable pub read_from_page : BufferPoolInstance → ℕ → List ℕ
unfolding lookup
read_from_page pool page_id = elim (lookup page_id pool.page_table) [
  | none ↦ []
  | some frame_id ↦ (pool.pages frame_id).bytes
]
