-- ===== src/Storage/Page.antt =====
-- A page in memory (src/storage/page.rs).
use dip_v.Base.{ℕ, Bool, false, List, Option, none}
use dip_v.Storage.Disk.{page_size, zeros}

-- `bytes` is the field `data`, an array of `page_size` bytes.
pub record Page : Type 0 where
  pub id : Option ℕ
  pub pin_count : ℕ
  pub is_dirty : Bool
  pub bytes : List ℕ

-- `Page::new`
unfoldable pub new : Page
new = record { id = none; pin_count = 0; is_dirty = false; bytes = zeros page_size }

-- `Page::reset_memory`
unfoldable pub reset_memory : Page → Page
reset_memory p = record p { bytes = zeros page_size }
