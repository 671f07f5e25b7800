-- ===== src/Storage/BufferPool/Fetch.antt =====
-- `fetch_page` as a whole (src/storage/buffer_pool_instance.rs).
use dip_v.Base.{
  ℕ, ◌<◌, false, subst, [], Bool-cases, ◌⊎◌, ◌==◌, ◌≡◌, ◌≢◌, refl, inl, inr, List, ==_refl, arith,
  Option, none, some, Option-cases, ok, ok-injective, sym, ◌∙◌,
}
use dip_v.Storage.Disk.Laws.{length-read_page}
use dip_v.Storage.Replacer
use dip_v.Storage.Replacer.{contains}
use dip_v.Storage.BufferPool.{
  BufferPoolInstance, lookup, find_victim_frame, install, load, or_none, pin_again, fetch_page,
}
use dip_v.Storage.BufferPool.Table.{lookup-insert, remove_absent}
use dip_v.Storage.BufferPool.Invariant.{
  IsPool, Vacant, VictimOf, from_free, from_lru, nothing, evicted, lookup-unmap, install-IsPool,
  pin_again-IsPool, find_victim_frame_lem, VictimOf-Victim,
}
use dip_v.Storage.BufferPool.Content.{
  content, content_mapped, content_absent, IsSynced, Keeps, Keeps-trans, VictimOf-Keeps,
  VictimOf-absent, read_page-answers, pin_again-Keeps, install-Keeps,
}

-- Every page that somebody has pinned stays where it is.
unfoldable pub KeepsPinned : BufferPoolInstance → BufferPoolInstance → Type 0
KeepsPinned pool pool' =
    (q f : ℕ)
    → lookup q pool.page_table ≡ some f
    → (pool.pages f).pin_count ≢ 0
    → lookup q pool'.page_table ≡ some f

-- From one pool to the next only the page `p` may be mapped anew, and no id is given out.
pub record Moves (pool pool' : BufferPoolInstance) (p : ℕ) : Type 0 where
  pub pinned : KeepsPinned pool pool'
  pub only :
      (q f : ℕ)
      → lookup q pool'.page_table ≡ some f
      → ((lookup q pool.page_table ≡ some f) ⊎ (q ≡ p))
  pub ids : pool'.disk_manager.next_page_id ≡ pool.disk_manager.next_page_id

-- A frame is free, or can be freed.
abbrev pub HasFrame : BufferPoolInstance → Type 0
HasFrame pool = (pool.free_list ≢ []) ⊎ (pool.replacer.frames ≢ [])

-- As soon as one pin of frame `f` is dropped, a frame is free or can be freed.
abbrev pub MayFree : BufferPoolInstance → ℕ → Type 0
MayFree pool f = HasFrame pool ⊎ ((pool.pages f).pin_count ≡ 1)

pub record Fetched (pool : BufferPoolInstance) (p : ℕ) (out : Option ℕ × BufferPoolInstance)
    : Type 0 where
  pub valid : IsPool out.1
  pub keeps : Keeps pool out.1
  pub moves : Moves pool out.1 p
  pub there : (f : ℕ) → out.0 ≡ some f → lookup p out.1.page_table ≡ some f
  pub holds :
      (f : ℕ) (bytes : List ℕ)
      → out.0 ≡ some f
      → content pool p ≡ ok bytes
      → (out.1.pages f).bytes ≡ bytes
  pub served :
      (bytes : List ℕ) → content pool p ≡ ok bytes → HasFrame pool → (f : ℕ) × (out.0 ≡ some f)
  pub room : (f : ℕ) → out.0 ≡ some f → HasFrame pool → MayFree out.1 f

VictimOf-KeepsPinned :
    {pool : BufferPoolInstance} {out : Option ℕ × BufferPoolInstance}
    → IsPool pool
    → VictimOf pool out
    → KeepsPinned pool out.1
unfolding KeepsPinned
VictimOf-KeepsPinned v (from_free f rest e) q g h k = h
VictimOf-KeepsPinned {pool} v (from_lru f rest disk e back) q g h k =
    unfold evicted contains in
    let idle : (pool.pages f).pin_count ≡ 0 = (v.evictable f (ground (arith, e))).0 in
    ground (arith, lookup-unmap (pool.pages f).id q pool.page_table, v.tracked f q)
VictimOf-KeepsPinned v (nothing e l) q g h k = h

pub VictimOf-Moves :
    {pool : BufferPoolInstance} {out : Option ℕ × BufferPoolInstance} (p : ℕ)
    → IsPool pool
    → VictimOf pool out
    → Moves pool out.1 p
VictimOf-Moves p v (from_free f rest e) = record {
  pinned = VictimOf-KeepsPinned v (from_free f rest e);
  only = λ q g h. inl h;
  ids = refl;
}
VictimOf-Moves {pool} p v (from_lru f rest disk e back) = record {
  pinned = VictimOf-KeepsPinned v (from_lru f rest disk e back);
  only = λ q g h.
      inl (unfold evicted in ground (arith, lookup-unmap (pool.pages f).id q pool.page_table));
  ids = unfold evicted in back.ids;
}
VictimOf-Moves p v (nothing e k) = record {
  pinned = VictimOf-KeepsPinned v (nothing e k);
  only = λ q g h. inl h;
  ids = refl;
}

-- What a pool with the page in frame `f` gives.
fetched :
    {pool pool' : BufferPoolInstance} (p f : ℕ)
    → IsPool pool'
    → Keeps pool pool'
    → Moves pool pool' p
    → lookup p pool'.page_table ≡ some f
    → (HasFrame pool → MayFree pool' f)
    → Fetched pool p (some f, pool')
fetched {pool} {pool'} p f v k moves e free = record {
  valid = v;
  keeps = k;
  moves = moves;
  there = λ g same. let at : f ≡ g = cc in ground (arith, e);
  holds = λ g bytes same h.
      let at : f ≡ g = cc in
      let now : lookup p pool'.page_table ≡ some g = ground (arith, e) in
      ok-injective _ _ (sym (content_mapped pool' p g now) ∙ k.same p bytes h);
  served = λ bytes h room. (f, refl);
  room = λ g same frame. let at : f ≡ g = cc in subst (MayFree pool') at (free frame);
}

-- What a pool that could not take the page gives: no frame was left, or the page could not be read.
refused :
    {pool pool' : BufferPoolInstance} (p : ℕ)
    → IsPool pool'
    → Keeps pool pool'
    → Moves pool pool' p
    → ((bytes : List ℕ) → content pool p ≡ ok bytes → HasFrame pool → ⊥)
    → Fetched pool p (none, pool')
refused p v k moves why = record {
  valid = v;
  keeps = k;
  moves = moves;
  there = λ f same. cc;
  holds = λ f bytes same h. cc;
  served = λ bytes h room. absurd (why bytes h room);
  room = λ f same. cc;
}

pub install-Moves :
    (pool mid : BufferPoolInstance) (p f : ℕ) (bytes : List ℕ)
    → Moves pool mid p
    → lookup p mid.page_table ≡ none
    → Moves pool (install mid p f bytes) p
unfolding KeepsPinned install
install-Moves pool mid p f bytes moves absent = record {
  pinned = λ q g h k.
      let still : lookup q mid.page_table ≡ some g = moves.pinned q g h k in
      ground (arith, lookup-insert p q f mid.page_table);
  only = λ q g h. elim (Bool-cases (p == q)) [
    | inl e ↦ inr (ground arith)
    | inr e ↦ moves.only q g (ground (arith, lookup-insert p q f mid.page_table))
  ];
  ids = moves.ids;
}

load_lem :
    (pool mid : BufferPoolInstance) (p f : ℕ)
    → IsPool mid
    → Keeps pool mid
    → Moves pool mid p
    → Vacant mid f
    → lookup p mid.page_table ≡ none
    → (out : Option ℕ × BufferPoolInstance) × (load mid p f ≡ ok out) × Fetched pool p out
load_lem pool mid p f v k moves w absent = elim (read_page-answers mid.disk_manager p) [
  | inl e ↦ (
    (none, mid),
    unfold load in ground (arith, v.sized f, w.inside, e),
    refused p v k moves
        (λ bytes h room. ground (arith, content_absent mid p absent, k.same p bytes h)),
  )
  | inr (bytes, e) ↦ (
    (some f, install mid p f bytes),
    (unfold load in ground (arith, v.sized f, w.inside, e)),
    fetched p f
        (install-IsPool mid p f bytes v w absent (length-read_page mid.disk_manager p bytes e))
        (Keeps-trans pool mid _ k (install-Keeps mid p f bytes v k.synced w absent e))
        (install-Moves pool mid p f bytes moves absent)
        (unfold install in ground (arith, lookup-insert p p f mid.page_table, ==_refl p))
        (λ h. inr (unfold install in ground arith)),
  )
]

-- Without a victim there was no frame.
no_frame : {pool mid : BufferPoolInstance} → VictimOf pool (none, mid) → HasFrame pool → ⊥
no_frame (nothing e k) (inl h) = h e
no_frame (nothing e k) (inr h) = h k

fetch_found :
    (pool : BufferPoolInstance) (p f : ℕ)
    → lookup p pool.page_table ≡ some f
    → f < pool.pool_size
    → fetch_page pool p ≡ ok (some f, pin_again pool f)
unfolding fetch_page
fetch_found pool p f e below = ground (arith, e, below)

fetch_absent :
    (pool : BufferPoolInstance) (p : ℕ) (found : Option ℕ × BufferPoolInstance)
    → lookup p pool.page_table ≡ none
    → find_victim_frame pool ≡ ok found
    → fetch_page pool p ≡ or_none found (λ frame_id pool'. load pool' p frame_id)
unfolding fetch_page
fetch_absent pool p found e h = ground (arith, e, h)

from_victim :
    (pool : BufferPoolInstance) (p : ℕ) (found : Option ℕ × BufferPoolInstance)
    → IsPool pool
    → IsSynced pool
    → lookup p pool.page_table ≡ none
    → VictimOf pool found
    → (out : Option ℕ × BufferPoolInstance) × (or_none found
          (λ frame_id pool'. load pool' p frame_id)
        ≡ ok out)
      × Fetched pool p out
from_victim pool p (none, mid) v s absent victim = (
  (none, mid),
  refl,
  refused p (VictimOf-Victim v victim).valid (VictimOf-Keeps v s victim) (VictimOf-Moves p v victim)
      (λ bytes h room. no_frame victim room),
)
from_victim pool p (some f, mid) v s absent victim =
    let good = VictimOf-Victim v victim in
    load_lem pool mid p f good.valid (VictimOf-Keeps v s victim) (VictimOf-Moves p v victim)
      (good.vacant f refl) (VictimOf-absent p absent victim)

-- A frame that was idle has one pin now; another frame's pin changes no list.
pin_again-MayFree :
    (pool : BufferPoolInstance) (f : ℕ) → IsPool pool → HasFrame pool → MayFree (pin_again pool f) f
unfolding pin_again Replacer.pin
pin_again-MayFree pool f v (inl h) = inl (inl h)
pin_again-MayFree pool f v (inr h) = elim (Bool-cases ((pool.pages f).pin_count == 0)) [
  | inl idle ↦ inr (ground arith)
  | inr busy ↦
      let apart : contains pool.replacer.frames f ≡ false = ground (arith, v.evictable f) in
      inl (inr (rw (remove_absent pool.replacer.frames f apart) h))
]

-- In a valid pool whose clean frames agree with the disk, `fetch_page` returns (it never panics), the
-- pool stays valid, no page's content changes, in its frame or on disk, and no pinned page moves;
-- if it returns a frame, the page table maps the page to that frame, which holds the page's content.
pub fetch_page_lem :
    (pool : BufferPoolInstance) (p : ℕ)
    → IsPool pool
    → IsSynced pool
    → (out : Option ℕ × BufferPoolInstance) × (fetch_page pool p ≡ ok out) × Fetched pool p out
unfolding pin_again KeepsPinned
fetch_page_lem pool p v s = elim (Option-cases (lookup p pool.page_table)) [
  | inr (f, e) ↦ (
    (some f, pin_again pool f),
    fetch_found pool p f e (v.inside p f e),
    fetched p f (pin_again-IsPool pool f v) (pin_again-Keeps pool f s)
        (record { pinned = λ q g h k. h; only = λ q g h. inl h; ids = refl }) e
        (pin_again-MayFree pool f v),
  )
  | inl e ↦
      let (found, runs, victim) = find_victim_frame_lem pool v in
      let (out, result, good) = from_victim pool p found v s e victim in
      (out, fetch_absent pool p found e runs ∙ result, good)
]
