-- ===== src/Storage/BufferPool/Unpin.antt =====
-- Dropping a pin (src/storage/buffer_pool_instance.rs).
use dip_v.Base.{
  ℕ, subst, ◌≢◌, List, [], ◌∷◌, ◌++◌, ◌+◌, ◌-◌, ◌≡◌, refl, Bool, true, false, Bool-cases, inl, inr,
  ◌==◌, arith, if◌then◌else◌, none, some, Option-cases, sym, ◌∙◌,
}
use dip_v.Storage.Replacer
use dip_v.Storage.Replacer.{LruReplacer, contains}
use dip_v.Storage.BufferPool.{BufferPoolInstance, lookup, set_page, unpin_page}
use dip_v.Storage.BufferPool.Invariant.{IsPool}
use dip_v.Storage.BufferPool.Content.{content_mapped, content_absent, IsSynced, Keeps}
use dip_v.Storage.BufferPool.Fetch.{HasFrame, MayFree}
use dip_v.Storage.BufferPool.Update.{set_page-IsPool, track-IsPool}

pub record Unpinned (pool : BufferPoolInstance) (p : ℕ) (out : Bool × BufferPoolInstance)
    : Type 0 where
  pub valid : IsPool out.1
  pub keeps : Keeps pool out.1
  pub table : out.1.page_table ≡ pool.page_table
  pub refused : out.0 ≡ false → out.1 ≡ pool
  pub counted :
      (f : ℕ)
      → out.0 ≡ true
      → lookup p pool.page_table ≡ some f
      → (pool.pages f).pin_count ≡ (out.1.pages f).pin_count + 1
  pub room : (f : ℕ) → lookup p pool.page_table ≡ some f → MayFree pool f → HasFrame out.1

less_pinned : BufferPoolInstance → ℕ → Bool → BufferPoolInstance
less_pinned pool f is_dirty =
    let page = pool.pages f in
    record pool {
      pages = set_page pool.pages f (record page {
        pin_count = page.pin_count - 1;
        is_dirty = if is_dirty then true else page.is_dirty;
      });
    }

unpinned : BufferPoolInstance → ℕ → Bool → BufferPoolInstance
unpinned pool f is_dirty = record (less_pinned pool f is_dirty) {
  replacer =
      if (pool.pages f).pin_count - 1 == 0 then Replacer.unpin pool.replacer f else pool.replacer;
}

unpin_found :
    (pool : BufferPoolInstance) (p f : ℕ) (is_dirty : Bool)
    → lookup p pool.page_table ≡ some f
    → ((pool.pages f).pin_count == 0) ≡ false
    → unpin_page pool p is_dirty ≡ (true, unpinned pool f is_dirty)
unfolding unpin_page unpinned less_pinned
unpin_found pool p f is_dirty e some_pin = ground (arith, e, some_pin)

unpin_refused :
    (pool : BufferPoolInstance) (p f : ℕ) (is_dirty : Bool)
    → lookup p pool.page_table ≡ some f
    → ((pool.pages f).pin_count == 0) ≡ true
    → unpin_page pool p is_dirty ≡ (false, pool)
unfolding unpin_page
unpin_refused pool p f is_dirty e no_pin = ground (arith, e, no_pin)

unpin_absent :
    (pool : BufferPoolInstance) (p : ℕ) (is_dirty : Bool)
    → lookup p pool.page_table ≡ none
    → unpin_page pool p is_dirty ≡ (false, pool)
unfolding unpin_page
unpin_absent pool p is_dirty e = ground (arith, e)

left_alone :
    (pool : BufferPoolInstance) (p : ℕ)
    → IsPool pool
    → IsSynced pool
    → ((f : ℕ) → lookup p pool.page_table ≡ some f → MayFree pool f → HasFrame pool)
    → Unpinned pool p (false, pool)
left_alone pool p v s one_left = record {
  valid = v;
  keeps = record { synced = s; same = λ q bytes h. h };
  table = refl;
  refused = λ h. refl;
  counted = λ f h k. cc;
  room = one_left;
}

less_pinned-IsPool :
    (pool : BufferPoolInstance) (f : ℕ) (is_dirty : Bool)
    → IsPool pool
    → ((pool.pages f).pin_count == 0) ≡ false
    → IsPool (less_pinned pool f is_dirty)
unfolding less_pinned
less_pinned-IsPool pool f is_dirty v some_pin =
    set_page-IsPool pool f _ v refl (v.sized f) (λ h. ground (arith, v.evictable f h))

unpinned-IsPool :
    (pool : BufferPoolInstance) (p f : ℕ) (is_dirty : Bool)
    → IsPool pool
    → lookup p pool.page_table ≡ some f
    → ((pool.pages f).pin_count == 0) ≡ false
    → IsPool (unpinned pool f is_dirty)
unfolding unpinned less_pinned
unpinned-IsPool pool p f is_dirty v e some_pin =
    elim (Bool-cases ((pool.pages f).pin_count - 1 == 0)) [
      | inl last ↦ rw last (
          track-IsPool (less_pinned pool f is_dirty) p f
            (less_pinned-IsPool pool f is_dirty v some_pin) (ground (arith, v.mapped p f e))
            (ground arith))
      | inr more ↦ rw more (less_pinned-IsPool pool f is_dirty v some_pin)
    ]

unpinned-Keeps :
    (pool : BufferPoolInstance) (f : ℕ) (is_dirty : Bool)
    → IsSynced pool
    → Keeps pool (unpinned pool f is_dirty)
unfolding unpinned less_pinned IsSynced
unpinned-Keeps pool f is_dirty s = record {
  synced = λ q g h k. ground (arith, s q g);
  same = λ q bytes h. elim (Option-cases (lookup q pool.page_table)) [
    | inl k ↦ content_absent (unpinned pool f is_dirty) q k ∙ (sym (content_absent pool q k) ∙ h)
    | inr (g, k) ↦
        content_mapped (unpinned pool f is_dirty) q g k
        ∙ (ground arith ∙ (sym (content_mapped pool q g k) ∙ h))
  ];
}

append-nonempty : (frames : List ℕ) (f : ℕ) → frames ++ (f ∷ []) ≢ []
append-nonempty [] f h = cc
append-nonempty (g ∷ frames) f h = cc

unpin-nonempty : (r : LruReplacer) (f : ℕ) → (Replacer.unpin r f).frames ≢ []
unfolding Replacer.unpin
unpin-nonempty r f h = elim (Bool-cases (contains r.frames f)) [
  | inl e ↦ ground (arith, e, h)
  | inr e ↦ ground (arith, e, h, append-nonempty r.frames f)
]

unpinned-HasFrame :
    (pool : BufferPoolInstance) (f : ℕ) (is_dirty : Bool)
    → MayFree pool f
    → HasFrame (unpinned pool f is_dirty)
unfolding unpinned less_pinned
unpinned-HasFrame pool f is_dirty (inl (inl h)) = inl h
unpinned-HasFrame pool f is_dirty (inl (inr h)) =
    inr (elim (Bool-cases ((pool.pages f).pin_count - 1 == 0)) [
      | inl last ↦ rw last (unpin-nonempty pool.replacer f)
      | inr more ↦ rw more h
    ])
unpinned-HasFrame pool f is_dirty (inr one) =
    let last : ((pool.pages f).pin_count - 1 == 0) ≡ true = ground arith in
    inr (rw last (unpin-nonempty pool.replacer f))

-- In a valid pool whose clean frames agree with the disk, `unpin_page` keeps the pool valid and every
-- page's content; when it answers `false` the pool is left as it is, and when it answers `true` the
-- page's frame has one pin less than before.
pub unpin_page_lem :
    (pool : BufferPoolInstance) (p : ℕ) (is_dirty : Bool)
    → IsPool pool
    → IsSynced pool
    → Unpinned pool p (unpin_page pool p is_dirty)
unfolding unpinned less_pinned
unpin_page_lem pool p is_dirty v s = elim (Option-cases (lookup p pool.page_table)) [
  | inl e ↦ rw (unpin_absent pool p is_dirty e) (left_alone pool p v s (λ f h. cc))
  | inr (f, e) ↦ elim (Bool-cases ((pool.pages f).pin_count == 0)) [
    | inl no_pin ↦ rw (unpin_refused pool p f is_dirty e no_pin) (
        left_alone pool p v s (λ g h may. elim may [
          | inl frame ↦ frame
          | inr one ↦ absurd (let at : f ≡ g = ground (arith, e) in ground (arith, at))
        ]))
    | inr some_pin ↦ rw (unpin_found pool p f is_dirty e some_pin) (record {
      valid = unpinned-IsPool pool p f is_dirty v e some_pin;
      keeps = unpinned-Keeps pool f is_dirty s;
      table = refl;
      refused = λ h. cc;
      counted = λ g h k. let at : f ≡ g = ground (arith, e) in ground (arith, at);
      room = λ g h may.
          let at : f ≡ g = ground (arith, e) in
          unpinned-HasFrame pool f is_dirty (subst (MayFree pool) (sym at) may);
    })
  ]
]
