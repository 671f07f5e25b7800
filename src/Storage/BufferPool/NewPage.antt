-- ===== src/Storage/BufferPool/NewPage.antt =====
-- `new_page` as a whole (src/storage/buffer_pool_instance.rs).
use dip_v.Base.{
  ℕ, ◌<◌, ◌≡◌, ◌≢◌, refl, false, inl, inr, List, ◌==◌, ==_refl, arith, Option, none, some,
  Option-cases, ok, sym, ◌∙◌,
}
use dip_v.Storage.BufferPool.{BufferPoolInstance, lookup, install, or_none, new_install, new_page}
use dip_v.Storage.BufferPool.Table.{lookup-insert}
use dip_v.Storage.BufferPool.Invariant.{
  IsPool, Vacant, VictimOf, install-IsPool, find_victim_frame_lem, VictimOf-Victim,
}
use dip_v.Storage.BufferPool.Content.{
  content, content_mapped, content_absent, IsSynced, VictimOf-Keeps, VictimOf-absent,
}
use dip_v.Storage.BufferPool.Fetch.{Moves, VictimOf-Moves, install-Moves}

pub record Added (pool : BufferPoolInstance) (p : ℕ) (out : Option ℕ × BufferPoolInstance)
    : Type 0 where
  pub valid : IsPool out.1
  pub moves : Moves pool out.1 p
  pub others :
      (q : ℕ) (bytes : List ℕ) → p ≢ q → content pool q ≡ ok bytes → content out.1 q ≡ ok bytes
  pub there :
      (f : ℕ)
      → out.0 ≡ some f
      → (lookup p out.1.page_table ≡ some f) × ((out.1.pages f).pin_count ≡ 1)

install_other :
    (pool : BufferPoolInstance) (p f : ℕ) (bytes : List ℕ)
    → IsPool pool
    → Vacant pool f
    → (q : ℕ) (old : List ℕ) → p ≢ q
    → content pool q ≡ ok old
    → content (install pool p f bytes) q ≡ ok old
unfolding install
install_other pool p f bytes v w q old apart h =
    let differ : (p == q) ≡ false = ground arith in
    elim (Option-cases (lookup q pool.page_table)) [
      | inl k ↦
          content_absent (install pool p f bytes) q
            (ground (arith, lookup-insert p q f pool.page_table))
          ∙ (sym (content_absent pool q k) ∙ h)
      | inr (g, k) ↦
          let other : (g == f) ≡ false = ground (arith, v.mapped q g, w.no_id) in
          content_mapped (install pool p f bytes) q g
            (ground (arith, lookup-insert p q f pool.page_table))
          ∙ rw other (sym (content_mapped pool q g k) ∙ h)
    ]

installed :
    (pool : BufferPoolInstance) (p f : ℕ)
    → f < pool.pool_size
    → new_install p f pool ≡ ok (some f, install pool p f (pool.pages f).bytes)
unfolding new_install
installed pool p f below = ground (arith, below)

from_victim :
    (pool : BufferPoolInstance) (p : ℕ) (found : Option ℕ × BufferPoolInstance)
    → IsPool pool
    → IsSynced pool
    → lookup p pool.page_table ≡ none
    → VictimOf pool found
    → (out : Option ℕ × BufferPoolInstance) × (or_none found (new_install p) ≡ ok out)
      × Added pool p out
from_victim pool p (none, mid) v s absent victim = (
  (none, mid),
  refl,
  record {
    valid = (VictimOf-Victim v victim).valid;
    moves = VictimOf-Moves p v victim;
    others = λ q bytes apart h. (VictimOf-Keeps v s victim).same q bytes h;
    there = λ f e. cc;
  },
)
from_victim pool p (some f, mid) v s absent victim =
    let good = VictimOf-Victim v victim in
    let bytes : List ℕ = (mid.pages f).bytes in
    let still : lookup p mid.page_table ≡ none = VictimOf-absent p absent victim in
    (
      (some f, install mid p f bytes),
      installed mid p f (good.vacant f refl).inside,
      record {
        valid =
            install-IsPool mid p f bytes good.valid (good.vacant f refl) still (good.valid.sized f);
        moves = install-Moves pool mid p f bytes (VictimOf-Moves p v victim) still;
        others = λ q old apart h.
            install_other mid p f bytes good.valid (good.vacant f refl) q old apart
              ((VictimOf-Keeps v s victim).same q old h);
        there = λ g e.
            let at : f ≡ g = cc in
            unfold install in
            (ground (arith, lookup-insert p p f mid.page_table, ==_refl p), ground arith);
      },
    )

-- In a valid pool whose clean frames agree with the disk, `new_page` for an id that is not mapped
-- returns (it never panics): the pool stays valid, no pinned page moves, every other page keeps its
-- content, and if it returns a frame, the page is mapped to it and pinned once.
pub new_page_lem :
    (pool : BufferPoolInstance) (p : ℕ)
    → IsPool pool
    → IsSynced pool
    → lookup p pool.page_table ≡ none
    → (out : Option ℕ × BufferPoolInstance) × (new_page pool p ≡ ok out) × Added pool p out
unfolding new_page
new_page_lem pool p v s absent =
    let (found, runs, victim) = find_victim_frame_lem pool v in
    let (out, result, good) = from_victim pool p found v s absent victim in
    (out, rw runs result, good)
