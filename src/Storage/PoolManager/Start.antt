-- ===== src/Storage/PoolManager/Start.antt =====
-- A new buffer pool has room in every shard (src/storage/buffer_pool_manager.rs).
use dip_v.Base.{
  ℕ, zero, suc, ◌/◌, ◌≤◌, ◌<◌, ◌≡◌, ◌≢◌, true, refl, [], ◌==◌, arith, inl, if◌then◌else◌,
}
use dip_v.Storage.Disk.{DiskManager}
use dip_v.Storage.BufferPool
use dip_v.Storage.BufferPool.{lookup, frames_below}
use dip_v.Storage.BufferPool.Invariant.{new-IsPool}
use dip_v.Storage.BufferPool.Content.{IsSynced}
use dip_v.Storage.BufferPool.Table.{
  distinct, frames_below-lt, lt-frames_below, distinct-frames_below,
}
use dip_v.Storage.Replacer.{contains}
use dip_v.Storage.PoolManager.{BufferPoolManager, num_shards, new}
use dip_v.Storage.PoolManager.Calls.{Ready}

has_frames : (n : ℕ) → n ≢ 0 → frames_below n ≢ []
unfolding frames_below
has_frames zero h e = h refl
has_frames (suc n) h e = cc

-- A new buffer pool is ready.
pub new-Ready : (hash : ℕ → ℕ) (total : ℕ) (disk : DiskManager) → Ready hash (new total disk)
unfolding new BufferPool.new IsSynced lookup
new-Ready hash total disk =
    let size : ℕ = total / num_shards in
    let frames : ℕ = if size == 0 then 1 else size in
    let some_frames : frames ≢ 0 = ground arith in
    record {
      valid = record {
        pool = λ i. new-IsPool frames disk;
        synced = λ i q f h k. cc;
        homed = λ i p f h. cc;
      };
      room = λ i. inl (has_frames frames some_frames);
    }

-- The shards of a new pool: as many frames each, at least one, as divide the size, all of them free
-- and nothing else.
pub record Started (total : ℕ) (m : BufferPoolManager) : Type 0 where
  pub enough : (i : ℕ) → total / num_shards ≤ (m.shards i).pool_size
  pub at_least_one : (i : ℕ) → 1 ≤ (m.shards i).pool_size
  pub free : (i f : ℕ) → f < (m.shards i).pool_size → contains (m.shards i).free_list f ≡ true
  pub only : (i f : ℕ) → contains (m.shards i).free_list f ≡ true → f < (m.shards i).pool_size
  pub once : (i : ℕ) → distinct (m.shards i).free_list ≡ true

-- Whatever the size of the pool and the disk, a new buffer pool is in order and in agreement with the
-- disk, and each shard has at least one frame and a 64th of the size, with all its frames free: each
-- stands once in the free list, which has no other number.
pub new_lem :
    (hash : ℕ → ℕ) (total : ℕ) (disk : DiskManager)
    → Ready hash (new total disk) × Started total (new total disk)
unfolding new BufferPool.new
new_lem hash total disk =
    let size : ℕ = total / num_shards in
    let frames : ℕ = if size == 0 then 1 else size in
    (
      new-Ready hash total disk,
      record {
        enough = λ i. ground arith;
        at_least_one = λ i. ground arith;
        free = λ i f h. lt-frames_below frames f h;
        only = λ i f h. frames_below-lt frames f h;
        once = λ i. distinct-frames_below frames;
      },
    )
