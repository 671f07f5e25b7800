-- ===== src/Storage/PoolManager.antt =====
-- The shards of the buffer pool and the disk that they share (src/storage/buffer_pool_manager.rs).
pub mod Invariant
pub mod Calls
pub mod Start
use dip_v.Base.{
  ℕ, zero, suc, ◌+◌, ◌/◌, ◌%◌, Bool, List, ◌==◌, if◌then◌else◌, Option, none, some, Result, ok,
  ◌>>=◌,
}
use dip_v.Storage.Disk.{DiskManager, allocate_page}
use dip_v.Storage.BufferPool
use dip_v.Storage.BufferPool.{BufferPoolInstance}

-- `NUM_SHARDS`
abbrev pub num_shards : ℕ
num_shards = 64

-- `shards` is the vector of shards, by index. All share `disk_manager`; the field of that name in
-- a shard is set to it when the shard is used.
pub record BufferPoolManager : Type 0 where
  pub disk_manager : DiskManager
  pub shards : ℕ → BufferPoolInstance

-- `BufferPoolManager::new`
unfoldable pub new : ℕ → DiskManager → BufferPoolManager
unfolding BufferPool.new
new total_pool_size disk_manager =
    let shard_size = total_pool_size / num_shards in
    let at_least_one = if shard_size == 0 then 1 else shard_size in
    record { disk_manager = disk_manager; shards = λ i. BufferPool.new at_least_one disk_manager }

-- The shard under its lock, with the shared disk.
abbrev pub shard : BufferPoolManager → ℕ → BufferPoolInstance
shard m i = record (m.shards i) { disk_manager = m.disk_manager }

-- The shard and the shared disk after a call.
abbrev pub put : BufferPoolManager → ℕ → BufferPoolInstance → BufferPoolManager
put m i s = record { disk_manager = s.disk_manager; shards = λ j. if j == i then s else m.shards j }

-- `flush_all` on the shards from `i` on.
unfoldable pub flush_shards : BufferPoolManager → ℕ → ℕ → Result BufferPoolManager
unfolding BufferPool.flush_all
flush_shards m i zero = ok m
flush_shards m i (suc rounds) = do
  s ← BufferPool.flush_all (shard m i)
  flush_shards (put m i s) (i + 1) rounds

-- `BufferPoolManager::flush_all`, which `drop` calls too
unfoldable pub flush_all : BufferPoolManager → Result BufferPoolManager
unfolding flush_shards
flush_all m = flush_shards m 0 num_shards

-- `hash` is the standard library's hasher.
module _ (hash : ℕ → ℕ) where
  -- `BufferPoolManager::get_shard_idx`
  unfoldable pub get_shard_idx : ℕ → ℕ
  get_shard_idx page_id = hash page_id % num_shards

  -- `BufferPoolManager::fetch_page`
  unfoldable pub fetch_page : BufferPoolManager → ℕ → Result (Option ℕ × BufferPoolManager)
  unfolding get_shard_idx BufferPool.fetch_page
  fetch_page m page_id = do
    let i = get_shard_idx page_id
    (frame, s) ← BufferPool.fetch_page (shard m i) page_id
    ok (frame, put m i s)

  -- `BufferPoolManager::unpin_page`
  unfoldable pub unpin_page : BufferPoolManager → ℕ → Bool → Bool × BufferPoolManager
  unfolding get_shard_idx BufferPool.unpin_page
  unpin_page m page_id is_dirty =
      let i = get_shard_idx page_id in
      let (done, s) = BufferPool.unpin_page (shard m i) page_id is_dirty in (done, put m i s)

  -- `BufferPoolManager::new_page`: the id stays allocated when the shard is full.
  unfoldable pub new_page : BufferPoolManager → Result (Option ℕ × BufferPoolManager)
  unfolding get_shard_idx BufferPool.new_page
  new_page m =
      let (page_id, disk) = allocate_page m.disk_manager in
      let m' : BufferPoolManager = record m { disk_manager = disk } in
      let i = get_shard_idx page_id in
      do
        (frame, s) ← BufferPool.new_page (shard m' i) page_id
        ok ((elim frame [ some f ↦ some page_id | none ↦ none ]), put m' i s)

  -- `BufferPoolManager::flush_page`
  unfoldable pub flush_page : BufferPoolManager → ℕ → Result (Bool × BufferPoolManager)
  unfolding get_shard_idx BufferPool.flush_page
  flush_page m page_id = do
    let i = get_shard_idx page_id
    (done, s) ← BufferPool.flush_page (shard m i) page_id
    ok (done, put m i s)

  -- `BufferPoolManager::write_to_page`
  unfoldable pub write_to_page : BufferPoolManager → ℕ → List ℕ → BufferPoolManager
  unfolding get_shard_idx BufferPool.write_to_page
  write_to_page m page_id bytes =
      let i = get_shard_idx page_id in put m i (BufferPool.write_to_page (shard m i) page_id bytes)

  -- `BufferPoolManager::read_from_page`
  unfoldable pub read_from_page : BufferPoolManager → ℕ → List ℕ
  unfolding get_shard_idx BufferPool.read_from_page
  read_from_page m page_id = BufferPool.read_from_page (shard m (get_shard_idx page_id)) page_id
