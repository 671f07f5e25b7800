-- ===== src/Storage/BufferPool/Invariant.antt =====
-- The books of the pool stay right: page table, frames, free list and replacer agree
-- (src/storage/buffer_pool_instance.rs).
use dip_v.Base.{
  ℕ, ◌<◌, ltb, ◌≡◌, ◌≢◌, refl, ap, subst, true, false, Bool-cases, inl, inr, List, [], ◌∷◌, length,
  ◌==◌, arith, if◌then◌else◌, Option, none, some, Option-cases, List-cases, sym, ok,
}
use dip_v.Storage.Disk.{DiskManager, page_size, read_page}
use dip_v.Storage.Disk.Laws.{length-zeros, next_page_id-write_page, read_page-write_page}
use dip_v.Storage.Page
use dip_v.Storage.Page.{Page}
use dip_v.Storage.Replacer
use dip_v.Storage.Replacer.{LruReplacer, contains, remove_first}
use dip_v.Storage.BufferPool.{
  BufferPoolInstance, new, lookup, set_page, must_write, write_back, unmap, find_victim_frame,
  install, pin_again,
}
use dip_v.Storage.BufferPool.Table.{
  lookup-insert, lookup-remove, distinct, contains-remove_first, distinct-remove_first,
  distinct-frames_below, frames_below-lt,
}

pub record IsPool (pool : BufferPoolInstance) : Type 0 where
  pub mapped : (p f : ℕ) → lookup p pool.page_table ≡ some f → (pool.pages f).id ≡ some p
  pub tracked : (f p : ℕ) → (pool.pages f).id ≡ some p → lookup p pool.page_table ≡ some f
  pub free : (f : ℕ) → contains pool.free_list f ≡ true → (pool.pages f).id ≡ none
  pub free_once : distinct pool.free_list ≡ true
  pub evictable :
      (f : ℕ)
      → contains pool.replacer.frames f ≡ true
      → ((pool.pages f).pin_count ≡ 0) × (contains pool.free_list f ≡ false)
  pub once : distinct pool.replacer.frames ≡ true
  pub sized : (f : ℕ) → length (pool.pages f).bytes ≡ page_size
  pub inside : (p f : ℕ) → lookup p pool.page_table ≡ some f → f < pool.pool_size
  pub inside_free : (f : ℕ) → contains pool.free_list f ≡ true → f < pool.pool_size
  pub inside_idle : (f : ℕ) → contains pool.replacer.frames f ≡ true → f < pool.pool_size

pub new-IsPool : (pool_size : ℕ) (disk : DiskManager) → IsPool (new pool_size disk)
unfolding new lookup contains Page.new
new-IsPool pool_size disk = record {
  mapped = λ p f h. cc;
  tracked = λ f p h. cc;
  free = λ f h. refl;
  free_once = distinct-frames_below pool_size;
  evictable = λ f h. cc;
  once = unfold distinct in refl;
  sized = λ f. length-zeros page_size;
  inside = λ p f h. cc;
  inside_free = frames_below-lt pool_size;
  inside_idle = λ f h. cc;
}

-- A frame that `find_victim_frame` hands out: nobody else will use it.
pub record Vacant (pool : BufferPoolInstance) (f : ℕ) : Type 0 where
  pub no_id : (pool.pages f).id ≡ none
  pub not_free : contains pool.free_list f ≡ false
  pub not_evictable : contains pool.replacer.frames f ≡ false
  pub inside : f < pool.pool_size

pub install-IsPool :
    (pool : BufferPoolInstance) (p f : ℕ) (bytes : List ℕ)
    → IsPool pool
    → Vacant pool f
    → lookup p pool.page_table ≡ none
    → length bytes ≡ page_size
    → IsPool (install pool p f bytes)
unfolding install Replacer.pin
install-IsPool pool p f bytes v w absent size = record {
  mapped = λ q g h.
      ground (arith, v.mapped q g, lookup-insert p q f pool.page_table, v.mapped q f, w.no_id);
  tracked = λ g q h. ground (arith, v.tracked g q, lookup-insert p q f pool.page_table);
  free = λ g h. ground (arith, v.free g, w.not_free);
  free_once = v.free_once;
  evictable = λ g h. ground (
    arith,
    v.evictable g,
    contains-remove_first pool.replacer.frames f g v.once,
    w.not_evictable,
  );
  once = distinct-remove_first pool.replacer.frames f v.once;
  sized = λ g. ground (arith, v.sized g);
  inside = λ q g h. ground (arith, v.inside q g, lookup-insert p q f pool.page_table, w.inside);
  inside_free = v.inside_free;
  inside_idle =
      λ g h. ground (arith, v.inside_idle g, contains-remove_first pool.replacer.frames f g v.once);
}

pub pin_again-IsPool : (pool : BufferPoolInstance) (f : ℕ) → IsPool pool → IsPool (pin_again pool f)
unfolding pin_again Replacer.pin
pin_again-IsPool pool f v = record {
  mapped = λ q g h. ground (arith, v.mapped q g);
  tracked = λ g q h. ground (arith, v.tracked g q);
  free = λ g h. ground (arith, v.free g);
  free_once = v.free_once;
  evictable =
      λ g h. ground (arith, v.evictable g, contains-remove_first pool.replacer.frames f g v.once);
  once = distinct-remove_first pool.replacer.frames f v.once;
  sized = λ g. ground (arith, v.sized g);
  inside = v.inside;
  inside_free = v.inside_free;
  inside_idle =
      λ g h. ground (arith, v.inside_idle g, contains-remove_first pool.replacer.frames f g v.once);
}

-- The frame and the pool that `find_victim_frame` returns.
pub record Victim (out : Option ℕ × BufferPoolInstance) : Type 0 where
  pub valid : IsPool out.1
  pub vacant : (f : ℕ) → out.0 ≡ some f → Vacant out.1 f

-- A write back never fails: the evicted page is on disk if it was dirty, and every other page that
-- could be read reads as before.
pub record WroteBack (d : DiskManager) (page : Page) (d' : DiskManager) : Type 0 where
  pub fresh :
      (q : ℕ) → page.id ≡ some q → page.is_dirty ≡ true → read_page d' q page_size ≡ ok page.bytes
  pub clean : page.is_dirty ≡ false → d' ≡ d
  pub ids : d'.next_page_id ≡ d.next_page_id
  pub kept :
      (q : ℕ) (old : List ℕ)
      → page.id ≢ some q
      → read_page d q page_size ≡ ok old
      → read_page d' q page_size ≡ ok old

write_back_lem :
    (d : DiskManager) (page : Page)
    → length page.bytes ≡ page_size
    → (d' : DiskManager) × (write_back d page ≡ ok d') × WroteBack d page d'
unfolding write_back must_write
write_back_lem d page size = elim (Option-cases page.id) [
  | inl e ↦ (
    d,
    rw (e, write_back),
    record { fresh = λ q h k. cc; clean = λ h. refl; ids = refl; kept = λ q old h k. k },
  )
  | inr (pid, e) ↦ elim (Bool-cases page.is_dirty) [
    | inl dirty ↦
        let (d', wrote, reads, others) = read_page-write_page d pid page.bytes size in
        (
          d',
          rw (e, write_back, dirty, wrote, must_write),
          record {
            fresh = λ q h k. let same : pid ≡ q = cc in rw (← same) reads;
            clean = λ h. cc;
            ids = next_page_id-write_page d pid page.bytes wrote;
            kept = λ q old h k. others q old (λ same. h (rw e (ap some same))) k;
          },
        )
    | inr tidy ↦ (
      d,
      rw (e, write_back, tidy),
      record { fresh = λ q h k. cc; clean = λ h. refl; ids = refl; kept = λ q old h k. k },
    )
  ]
]

pub lookup-unmap :
    (o : Option ℕ) (q : ℕ) (m : List (ℕ × ℕ))
    → lookup q (unmap o m)
      ≡ (elim o [ none ↦ lookup q m | some p ↦ if p == q then none else lookup q m ])
lookup-unmap none q m = refl
lookup-unmap (some p) q m = lookup-remove p q m

-- The pool after the page in the frame was evicted.
unfoldable pub evicted : BufferPoolInstance → ℕ → List ℕ → DiskManager → BufferPoolInstance
evicted pool f rest disk = record pool {
  disk_manager = disk;
  replacer = record { frames = rest };
  pages =
      set_page pool.pages f
        (Page.reset_memory (record (pool.pages f) { id = none; pin_count = 0; is_dirty = false }));
  page_table = unmap (pool.pages f).id pool.page_table;
}

evicted-IsPool :
    (pool : BufferPoolInstance) (f : ℕ) (rest : List ℕ) (disk : DiskManager)
    → IsPool pool
    → pool.replacer.frames ≡ f ∷ rest
    → IsPool (evicted pool f rest disk) × Vacant (evicted pool f rest disk) f
unfolding evicted Page.reset_memory distinct contains
evicted-IsPool pool f rest disk v front =
    let order : distinct (f ∷ rest) ≡ true =
      subst (λ (l : List ℕ). distinct l ≡ true) front v.once in
    let was : contains pool.replacer.frames f ≡ true =
      subst (λ (l : List ℕ). contains l f ≡ true) (sym front) (ground arith) in
    (
      record {
        mapped = λ p g h. ground (
          arith,
          lookup-unmap (pool.pages f).id p pool.page_table,
          v.mapped p g,
          v.mapped p f,
          v.tracked f p,
        );
        tracked = λ g p h.
            ground (
              arith,
              lookup-unmap (pool.pages f).id p pool.page_table,
              v.tracked g p,
              v.tracked f p,
            );
        free = λ g h. ground (arith, v.free g);
        free_once = v.free_once;
        evictable = λ g h. ground (arith, front, v.evictable g);
        once = ground arith;
        sized = λ g. ground (arith, v.sized g, length-zeros page_size);
        inside =
            λ p g h. ground (arith, lookup-unmap (pool.pages f).id p pool.page_table, v.inside p g);
        inside_free = v.inside_free;
        inside_idle = λ g h. ground (arith, front, v.inside_idle g);
      },
      record {
        no_id = ground arith;
        not_free = (v.evictable f was).1;
        not_evictable = ground arith;
        inside = v.inside_idle f was;
      },
    )

-- Where `find_victim_frame` gets its frame.
pub data VictimOf (pool : BufferPoolInstance) : Option ℕ × BufferPoolInstance → Type 0 where
  from_free :
      (f : ℕ) (rest : List ℕ)
      → pool.free_list ≡ f ∷ rest
      → VictimOf pool (some f, record pool { free_list = rest })
  from_lru :
      (f : ℕ) (rest : List ℕ) (disk : DiskManager)
      → pool.replacer.frames ≡ f ∷ rest
      → WroteBack pool.disk_manager (pool.pages f) disk
      → VictimOf pool (some f, evicted pool f rest disk)
  nothing : pool.free_list ≡ [] → pool.replacer.frames ≡ [] → VictimOf pool (none, pool)

no_victim :
    (pool : BufferPoolInstance)
    → pool.free_list ≡ []
    → pool.replacer.frames ≡ []
    → find_victim_frame pool ≡ ok (none, pool)
unfolding Replacer.victim find_victim_frame
no_victim pool e none_left = ground (arith, e, none_left)

free_victim :
    (pool : BufferPoolInstance) (f : ℕ) (rest : List ℕ)
    → pool.free_list ≡ f ∷ rest
    → find_victim_frame pool ≡ ok (some f, record pool { free_list = rest })
unfolding find_victim_frame
free_victim pool f rest e = rw e

lru_victim :
    (pool : BufferPoolInstance) (f : ℕ) (rest : List ℕ) (disk : DiskManager)
    → pool.free_list ≡ []
    → pool.replacer.frames ≡ f ∷ rest
    → ltb f pool.pool_size ≡ true
    → write_back pool.disk_manager (pool.pages f) ≡ ok disk
    → find_victim_frame pool ≡ ok (some f, evicted pool f rest disk)
unfolding find_victim_frame Replacer.victim evicted
lru_victim pool f rest disk e front below wrote = rw (e, front, below, wrote)

pub find_victim_frame_lem :
    (pool : BufferPoolInstance)
    → IsPool pool
    → (out : Option ℕ × BufferPoolInstance) × (find_victim_frame pool ≡ ok out) × VictimOf pool out
find_victim_frame_lem pool v = elim (List-cases pool.free_list) [
  | inr (f, rest, e) ↦
      ((some f, record pool { free_list = rest }), free_victim pool f rest e, from_free f rest e)
  | inl e ↦ elim (List-cases pool.replacer.frames) [
    | inl none_left ↦ ((none, pool), no_victim pool e none_left, nothing e none_left)
    | inr (f, rest, front) ↦
        let in_queue : contains pool.replacer.frames f ≡ true =
          unfold contains in ground (arith, front) in
        let (disk, wrote, back) = write_back_lem pool.disk_manager (pool.pages f) (v.sized f) in
        (
          (some f, evicted pool f rest disk),
          lru_victim pool f rest disk e front (ground (arith, v.inside_idle f, in_queue)) wrote,
          from_lru f rest disk front back,
        )
  ]
]

took_free-IsPool :
    (pool : BufferPoolInstance) (f : ℕ) (rest : List ℕ)
    → IsPool pool
    → pool.free_list ≡ f ∷ rest
    → IsPool (record pool { free_list = rest }) × Vacant (record pool { free_list = rest }) f
unfolding distinct contains
took_free-IsPool pool f rest v front =
    let order : distinct (f ∷ rest) ≡ true =
      subst (λ (l : List ℕ). distinct l ≡ true) front v.free_once in
    let was : contains pool.free_list f ≡ true =
      subst (λ (l : List ℕ). contains l f ≡ true) (sym front) (ground arith) in
    (
      record {
        mapped = v.mapped;
        tracked = v.tracked;
        free = λ g h.
            v.free g (subst (λ (l : List ℕ). contains l g ≡ true) (sym front) (ground arith));
        free_once = ground arith;
        evictable = λ g h. ground (arith, v.evictable g h, front);
        once = v.once;
        sized = v.sized;
        inside = v.inside;
        inside_free = λ g h.
            v.inside_free g
              (subst (λ (l : List ℕ). contains l g ≡ true) (sym front) (ground arith));
        inside_idle = v.inside_idle;
      },
      record {
        no_id = v.free f was;
        not_free = ground arith;
        not_evictable = ground (arith, v.evictable f);
        inside = v.inside_free f was;
      },
    )

pub VictimOf-Victim :
    {pool : BufferPoolInstance} {out : Option ℕ × BufferPoolInstance}
    → IsPool pool
    → VictimOf pool out
    → Victim out
VictimOf-Victim {pool} v (from_free f rest e) =
    let (valid, vacant) = took_free-IsPool pool f rest v e in
    record { valid = valid; vacant = λ g same. let e' : f ≡ g = cc in subst (Vacant _) e' vacant }
VictimOf-Victim {pool} v (from_lru f rest disk e back) =
    let (valid, vacant) = evicted-IsPool pool f rest disk v e in
    record { valid = valid; vacant = λ g same. let e' : f ≡ g = cc in subst (Vacant _) e' vacant }
VictimOf-Victim v (nothing e k) = record { valid = v; vacant = λ g same. cc }
