-- ===== src/Storage/Disk.antt =====
-- The database file as an array of pages (src/storage/disk_manager.rs).
-- The file is its bytes; operating-system errors are left out, the checks of the code are not.
pub mod Laws
use dip_v.Base.{
  ℕ, zero, suc, ◌+◌, ◌-◌, ◌*◌, ◌/◌, ◌%◌, ◌^◌, ◌≤◌, ◌<◌, ◌≡◌, ◌≢◌, refl, Bool, true, false, not,
  List, [], ◌∷◌, ◌++◌, length, length-append, leb, ltb, ◌==◌, arith, if◌then◌else◌, Result, ok,
  fail, ◌>>=◌, ◌>>◌, guard, Bool-cases, inl, inr, take, drop,
}
use dip_v.Base.Bytes.{slice}
use dip_v.Base.Splice.{splice, length-splice, slice-splice_self, slice-splice_other}

-- `PAGE_SIZE`
abbrev pub page_size : ℕ
page_size = 4096

pub record DiskManager : Type 0 where
  pub file : List ℕ
  pub next_page_id : ℕ

-- `DiskManager::new` on a file that holds the bytes
unfoldable pub new : List ℕ → DiskManager
new file = record { file = file; next_page_id = length file / page_size % 2 ^ 32 }

-- A write past the end fills the gap with zeros.
unfoldable pub zeros : ℕ → List ℕ
zeros zero = []
zeros (suc n) = 0 ∷ zeros n

unfoldable pub write_at : List ℕ → ℕ → List ℕ → List ℕ
write_at file offset bytes =
    splice (file ++ zeros (offset + length bytes - length file)) offset bytes

-- `DiskManager::write_page`
unfoldable pub write_page : DiskManager → ℕ → List ℕ → Result DiskManager
unfolding write_at
write_page d page_id bytes = do
  guard (length bytes == page_size)
  ok (record d { file = write_at d.file (page_id * page_size) bytes })

-- `DiskManager::read_page` into a buffer of `size` bytes: the bytes read
unfoldable pub read_page : DiskManager → ℕ → ℕ → Result (List ℕ)
read_page d page_id size = do
  guard (size == page_size)
  let offset = page_id * page_size
  guard (ltb offset (length d.file))
  guard (leb (offset + page_size) (length d.file))
  slice d.file offset (offset + page_size)

-- `DiskManager::allocate_page`: the id counter is a `u32`.
unfoldable pub allocate_page : DiskManager → ℕ × DiskManager
allocate_page d = (d.next_page_id, record d { next_page_id = (d.next_page_id + 1) % 2 ^ 32 })

-- `DiskManager::num_pages`
unfoldable pub num_pages : DiskManager → ℕ
num_pages d = d.next_page_id
