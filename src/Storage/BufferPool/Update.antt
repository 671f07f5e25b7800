-- ===== src/Storage/BufferPool/Update.antt =====
-- Writing, unpinning and flushing a page of the pool (src/storage/buffer_pool_instance.rs).
use dip_v.Base.{
  take_all, drop_all, append_nil, ℕ, ◌+◌, ◌≤◌, ◌≡◌, ◌≢◌, refl, Bool, true, false, ◌||◌, Bool-cases,
  length-take, inl, inr, List, length, take, leb, ltb, ◌==◌, arith, if◌then◌else◌, some,
  Option-cases, ok, sym, ◌∙◌,
}
use dip_v.Base.Splice.{splice, length-splice}
use dip_v.Storage.Disk.{DiskManager, page_size, read_page, write_page}
use dip_v.Storage.Disk.Laws.{read_page-write_page}
use dip_v.Storage.Page.{Page}
use dip_v.Storage.Replacer
use dip_v.Storage.Replacer.{LruReplacer, contains}
use dip_v.Storage.BufferPool.{
  BufferPoolInstance, lookup, set_page, must_write, flush_page, write_to_page, read_from_page,
}
use dip_v.Storage.BufferPool.Table.{distinct, contains-append, distinct-append}
use dip_v.Storage.BufferPool.Invariant.{IsPool}
use dip_v.Storage.BufferPool.Fetch.{MayFree}
use dip_v.Storage.BufferPool.Content.{content, content_mapped, content_absent, IsSynced, Keeps}

-- The page in frame `f` gets new bytes, or a new flag or pin count, and keeps its id.
pub set_page-IsPool :
    (pool : BufferPoolInstance) (f : ℕ) (page : Page)
    → IsPool pool
    → page.id ≡ (pool.pages f).id
    → length page.bytes ≡ page_size
    → (contains pool.replacer.frames f ≡ true → page.pin_count ≡ 0)
    → IsPool (record pool { pages = set_page pool.pages f page })
set_page-IsPool pool f page v same size idle = record {
  mapped = λ q g h. ground (arith, v.mapped q g);
  tracked = λ g q h. ground (arith, v.tracked g q);
  free = λ g h. ground (arith, v.free g);
  free_once = v.free_once;
  evictable = λ g h. ground (arith, v.evictable g, idle);
  once = v.once;
  sized = λ g. ground (arith, v.sized g);
  inside = v.inside;
  inside_free = v.inside_free;
  inside_idle = v.inside_idle;
}

contains-unpin :
    (r : LruReplacer) (f g : ℕ)
    → contains (Replacer.unpin r f).frames g ≡ (contains r.frames g || (f == g))
unfolding Replacer.unpin
contains-unpin r f g = elim (Bool-cases (contains r.frames f)) [
  | inl e ↦ ground (arith, e)
  | inr e ↦ ground (arith, e, contains-append r.frames f g)
]

distinct-unpin :
    (r : LruReplacer) (f : ℕ)
    → distinct r.frames ≡ true
    → distinct (Replacer.unpin r f).frames ≡ true
unfolding Replacer.unpin
distinct-unpin r f h = elim (Bool-cases (contains r.frames f)) [
  | inl e ↦ ground (arith, e)
  | inr e ↦ ground (arith, e, distinct-append r.frames f h e)
]

-- An idle mapped frame may join the replacer.
pub track-IsPool :
    (pool : BufferPoolInstance) (p f : ℕ)
    → IsPool pool
    → (pool.pages f).id ≡ some p
    → (pool.pages f).pin_count ≡ 0
    → IsPool (record pool { replacer = Replacer.unpin pool.replacer f })
track-IsPool pool p f v e idle = record {
  mapped = v.mapped;
  tracked = v.tracked;
  free = v.free;
  free_once = v.free_once;
  evictable = λ g h. ground (
    arith,
    v.evictable g,
    contains-unpin pool.replacer f g,
    v.free f,
    Bool-cases (contains pool.free_list f),
  );
  once = distinct-unpin pool.replacer f v.once;
  sized = v.sized;
  inside = v.inside;
  inside_free = v.inside_free;
  inside_idle = λ g h.
      ground
        (arith, v.inside_idle g, contains-unpin pool.replacer f g, v.inside p f, v.tracked f p e);
}

pub written : List ℕ → List ℕ → List ℕ
written old bytes =
    splice old 0 (take (if leb (length bytes) page_size then length bytes else page_size) bytes)

pub write_found :
    (pool : BufferPoolInstance) (p f : ℕ) (bytes : List ℕ)
    → lookup p pool.page_table ≡ some f
    → write_to_page pool p bytes ≡ record pool {
      pages =
          set_page pool.pages f
            (record (pool.pages f) { bytes = written (pool.pages f).bytes bytes; is_dirty = true });
    }
unfolding write_to_page written
write_found pool p f bytes e = ground (arith, e)

length-written :
    (old bytes : List ℕ) → length old ≡ page_size → length (written old bytes) ≡ page_size
unfolding written
length-written old bytes size =
    let len : ℕ = if leb (length bytes) page_size then length bytes else page_size in
    let small : len ≤ page_size = ground arith in
    omega (
      arith,
      size,
      small,
      length-take len bytes,
      length-splice old 0 (take len bytes) (omega (arith, size, small, length-take len bytes)),
    )

written_whole :
    (old bytes : List ℕ)
    → length old ≡ page_size
    → length bytes ≡ page_size
    → written old bytes ≡ bytes
unfolding written splice
written_whole old bytes size whole =
    let fits : leb (length bytes) page_size ≡ true = ground arith in
    rw
      (
        fits,
        take_all (length bytes) bytes (omega arith),
        drop_all (0 + length bytes) old (omega arith),
      )
      (unfold take in append_nil bytes)

-- The whole page is written.
pub record Written (pool : BufferPoolInstance) (p : ℕ) (bytes : List ℕ) (pool' : BufferPoolInstance)
    : Type 0 where
  pub valid : IsPool pool'
  pub synced : IsSynced pool'
  pub reads : read_from_page pool' p ≡ bytes
  pub table : pool'.page_table ≡ pool.page_table
  pub room : (f : ℕ) → MayFree pool f → MayFree pool' f
  pub others : (q : ℕ) → p ≢ q → content pool' q ≡ content pool q

dirtied : BufferPoolInstance → ℕ → List ℕ → BufferPoolInstance
dirtied pool f bytes = record pool {
  pages = set_page pool.pages f (record (pool.pages f) { bytes = bytes; is_dirty = true });
}

overwritten :
    (pool : BufferPoolInstance) (p f : ℕ) (bytes : List ℕ)
    → IsPool pool
    → IsSynced pool
    → lookup p pool.page_table ≡ some f
    → length bytes ≡ page_size
    → Written pool p bytes (dirtied pool f bytes)
unfolding dirtied IsSynced read_from_page
overwritten pool p f bytes v s e size = record {
  valid = set_page-IsPool pool f _ v refl size (λ h. (v.evictable f h).0);
  synced = λ q g h k. ground (arith, s q g);
  reads = ground (arith, e);
  table = refl;
  room = λ g may. elim may [ inl h ↦ inl h | inr h ↦ inr (ground arith) ];
  others = λ q apart. elim (Option-cases (lookup q pool.page_table)) [
    | inl k ↦ content_absent (dirtied pool f bytes) q k ∙ sym (content_absent pool q k)
    | inr (g, k) ↦
        let other : (g == f) ≡ false = ground (arith, v.mapped q g, v.mapped p f) in
        content_mapped (dirtied pool f bytes) q g k ∙ rw other (sym (content_mapped pool q g k))
  ];
}

-- In a valid pool whose clean frames agree with the disk, a whole page written to a mapped page reads
-- back, every other page's content is unchanged, and the pool stays valid and its clean frames in
-- agreement with the disk.
pub write_to_page_lem :
    (pool : BufferPoolInstance) (p f : ℕ) (bytes : List ℕ)
    → IsPool pool
    → IsSynced pool
    → lookup p pool.page_table ≡ some f
    → length bytes ≡ page_size
    → Written pool p bytes (write_to_page pool p bytes)
unfolding dirtied
write_to_page_lem pool p f bytes v s e size =
    rw (write_found pool p f bytes e, written_whole (pool.pages f).bytes bytes (v.sized f) size)
      (overwritten pool p f bytes v s e size)

-- A page flushed: what the disk now reads.
pub record Flushed (pool : BufferPoolInstance) (p f : ℕ) (out : Bool × BufferPoolInstance)
    : Type 0 where
  pub done : out.0 ≡ true
  pub valid : IsPool out.1
  pub on_disk : read_page out.1.disk_manager p page_size ≡ ok (pool.pages f).bytes
  pub clean : (out.1.pages f).is_dirty ≡ false
  pub keeps : Keeps pool out.1

flushed : BufferPoolInstance → ℕ → DiskManager → BufferPoolInstance
flushed pool f disk = record pool {
  disk_manager = disk;
  pages = set_page pool.pages f (record (pool.pages f) { is_dirty = false });
}

flush_dirty :
    (pool : BufferPoolInstance) (p f : ℕ) (disk : DiskManager)
    → lookup p pool.page_table ≡ some f
    → ltb f pool.pool_size ≡ true
    → (pool.pages f).is_dirty ≡ true
    → write_page pool.disk_manager p (pool.pages f).bytes ≡ ok disk
    → flush_page pool p ≡ ok (true, flushed pool f disk)
unfolding flush_page must_write flushed
flush_dirty pool p f disk e below dirty wrote = ground (arith, e, below, dirty, wrote)

flush_clean :
    (pool : BufferPoolInstance) (p f : ℕ)
    → lookup p pool.page_table ≡ some f
    → ltb f pool.pool_size ≡ true
    → (pool.pages f).is_dirty ≡ false
    → flush_page pool p ≡ ok (true, pool)
unfolding flush_page
flush_clean pool p f e below clean = ground (arith, e, below, clean)

pub moved_disk-IsPool :
    (pool : BufferPoolInstance) (disk : DiskManager)
    → IsPool pool
    → IsPool (record pool { disk_manager = disk })
moved_disk-IsPool pool disk v = record {
  mapped = v.mapped;
  tracked = v.tracked;
  free = v.free;
  free_once = v.free_once;
  evictable = v.evictable;
  once = v.once;
  sized = v.sized;
  inside = v.inside;
  inside_free = v.inside_free;
  inside_idle = v.inside_idle;
}

flushed-Keeps :
    (pool : BufferPoolInstance) (p f : ℕ) (disk : DiskManager)
    → IsPool pool
    → IsSynced pool
    → lookup p pool.page_table ≡ some f
    → read_page disk p page_size ≡ ok (pool.pages f).bytes
    → ((q : ℕ) (old : List ℕ)
        → p ≢ q
        → read_page pool.disk_manager q page_size ≡ ok old
        → read_page disk q page_size ≡ ok old)
    → Keeps pool (flushed pool f disk)
unfolding flushed IsSynced
flushed-Keeps pool p f disk v s e now others = record {
  synced = λ q g h k. elim (Bool-cases (g == f)) [
    | inl same ↦ let at : p ≡ q = ground (arith, v.mapped q g, v.mapped p f) in ground (arith, now)
    | inr apart ↦
        let at : p ≢ q = λ i. ground (arith, e) in
        let clean : (pool.pages g).is_dirty ≡ false = ground arith in
        rw apart (others q (pool.pages g).bytes at (s q g h clean))
  ];
  same = λ q bytes h. elim (Option-cases (lookup q pool.page_table)) [
    | inl k ↦
        let at : p ≢ q = λ i. ground (arith, e) in
        content_absent (flushed pool f disk) q k
        ∙ others q bytes at (sym (content_absent pool q k) ∙ h)
    | inr (g, k) ↦
        content_mapped (flushed pool f disk) q g k
        ∙ (ground arith ∙ (sym (content_mapped pool q g k) ∙ h))
  ];
}

-- In a valid pool whose clean frames agree with the disk, `flush_page` of a mapped page succeeds: the
-- disk reads the frame's bytes, the frame is clean, the pool stays valid, and no page's content changes.
pub flush_page_lem :
    (pool : BufferPoolInstance) (p f : ℕ)
    → IsPool pool
    → IsSynced pool
    → lookup p pool.page_table ≡ some f
    → (out : Bool × BufferPoolInstance) × (flush_page pool p ≡ ok out) × Flushed pool p f out
unfolding flushed IsSynced
flush_page_lem pool p f v s e = elim (Bool-cases (pool.pages f).is_dirty) [
  | inl dirty ↦
      let (disk, wrote, now, others) =
        read_page-write_page pool.disk_manager p (pool.pages f).bytes (v.sized f) in
      (
        (true, flushed pool f disk),
        flush_dirty pool p f disk e (ground (arith, v.inside p f e)) dirty wrote,
        record {
          done = refl;
          valid =
              moved_disk-IsPool _ disk
                (set_page-IsPool pool f _ v refl (v.sized f) (λ h. (v.evictable f h).0));
          on_disk = now;
          clean = ground arith;
          keeps = flushed-Keeps pool p f disk v s e now others;
        },
      )
  | inr tidy ↦ (
    (true, pool),
    flush_clean pool p f e (ground (arith, v.inside p f e)) tidy,
    record {
      done = refl;
      valid = v;
      on_disk = s p f e tidy;
      clean = tidy;
      keeps = record { synced = s; same = λ q bytes h. h };
    },
  )
]
