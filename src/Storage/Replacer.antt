-- ===== src/Storage/Replacer.antt =====
-- The least recently used queue of evictable frames (src/storage/replacer.rs).
use dip_v.Base.{
  ℕ, Bool, false, ◌||◌, List, [], ◌∷◌, ◌++◌, length, Option, none, some, ◌==◌, if◌then◌else◌,
}

-- The front of the queue is the least recently used frame.
pub record LruReplacer : Type 0 where
  pub frames : List ℕ

-- `LRUReplacer::new`
abbrev pub new : LruReplacer
new = record { frames = [] }

-- `victim`: `pop_front`
unfoldable pub victim : LruReplacer → Option ℕ × LruReplacer
victim r = elim r.frames [ [] ↦ (none, r) | frame ∷ rest ↦ (some frame, record { frames = rest }) ]

-- `position` followed by `remove`: the first occurrence goes.
unfoldable pub remove_first : List ℕ → ℕ → List ℕ
remove_first [] frame_id = []
remove_first (f ∷ fs) frame_id = if f == frame_id then fs else f ∷ remove_first fs frame_id

-- `pin`
unfoldable pub pin : LruReplacer → ℕ → LruReplacer
unfolding remove_first
pin r frame_id = record { frames = remove_first r.frames frame_id }

unfoldable pub contains : List ℕ → ℕ → Bool
contains [] frame_id = false
contains (f ∷ fs) frame_id = (f == frame_id) || contains fs frame_id

-- `unpin`
unfoldable pub unpin : LruReplacer → ℕ → LruReplacer
unfolding contains
unpin r frame_id =
    if contains r.frames frame_id then r else record { frames = r.frames ++ (frame_id ∷ []) }

-- `size`
unfoldable pub size : LruReplacer → ℕ
size r = length r.frames
